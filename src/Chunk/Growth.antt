-- ===== src/Chunk/Growth.antt =====
-- `Init`, `Next` and `Depth` of chunk.go: a chain grows at its end, by blank chunks.
use sqlog.Base.{
  ℕ, zero, suc, ◌+◌, ◌≤◌, ◌≡◌, ◌≢◌, refl, ap, sym, ◌∙◌, true, false, [], ◌∷◌, ◌++◌, append-nil,
  append_assoc, arith, ◌==◌, length, All, All-append, Bool-cases, inl, inr,
}
use sqlog.Chunk.{
  Chunk, Chain, max_entries, default_cap, successor, init, init_head, next, empty, depth,
}
use sqlog.Chunk.Invariant.{log, IsWf, IsBlank, blank-IsBlank}
use sqlog.Chunk.Writing.{logs, logs-blank, WritesAt}

-- The cap that `NewChunk` gives.
pub record HasCap (c : Chunk) : Type 0 where
  pub cap_pos : 1 ≤ c.cap
  pub cap_max : c.cap ≤ max_entries

pub IsWf-HasCap : {c : Chunk} → IsWf c → HasCap c
IsWf-HasCap w = omega arith

IsBlank-HasCap : {c : Chunk} → IsBlank c → HasCap c
IsBlank-HasCap w = omega arith

-- `ds` is `cs` with blank chunks behind it.
pub record Grown (cs ds : Chain) : Type 0 where
  pub added : Chain
  pub added_blank : All IsBlank added
  pub grown : ds ≡ cs ++ added

pub Grown-by : {cs ds : Chain} (bs : Chain) → All IsBlank bs → ds ≡ cs ++ bs → Grown cs ds
Grown-by bs b q = record { added = bs; added_blank = b; grown = q }

pub Grown-refl : (cs : Chain) → Grown cs cs
Grown-refl cs = Grown-by [] tt (sym (append-nil cs))

default_cap-eq : (c : Chunk) → HasCap c → default_cap c ≡ c
unfolding default_cap
default_cap-eq c h = elim (Bool-cases (c.cap == 0)) [ inl z ↦ absurd (ground arith) | inr z ↦ rw z ]

successor-IsBlank : (c : Chunk) → HasCap c → IsBlank (successor c)
unfolding successor
successor-IsBlank c h = blank-IsBlank _ c.cap h.cap_pos h.cap_max

pub Grown-trans : {cs ds es : Chain} → Grown cs ds → Grown ds es → Grown cs es
Grown-trans {cs} g k =
    Grown-by (g.added ++ k.added) (All-append IsBlank g.added k.added g.added_blank k.added_blank)
      (k.grown ∙ ap (λ l. l ++ k.added) g.grown ∙ append_assoc cs g.added k.added)

-- `Init(n)` leaves the chain as it is, and puts blank chunks behind it.
pub init-Grown :
    (n : ℕ) (c : Chunk) (rest : Chain)
    → HasCap c
    → All HasCap rest
    → Grown (c ∷ rest) (init n (c ∷ rest))
unfolding init
init-Grown zero c rest h hs = Grown-refl _
init-Grown (suc n) c [] h hs =
    let b = successor-IsBlank c h in
    let g = init-Grown n (successor c) [] (IsBlank-HasCap b) tt in
    rw (default_cap-eq c h)
      (Grown-by (successor c ∷ g.added) (b, g.added_blank) (ap (λ l. c ∷ l) g.grown))
init-Grown (suc n) c (d ∷ rest) h hs =
    let g = init-Grown n d rest hs.0 hs.1 in
    Grown-by g.added g.added_blank (ap (λ l. c ∷ l) g.grown)

pub next-Grown :
    (c : Chunk) (rest : Chain)
    → HasCap c
    → (init_head c rest ≡ c) × Grown rest (next c rest) × (next c rest ≢ [])
unfolding next init_head
next-Grown c [] h =
    rw (default_cap-eq c h)
      (refl, Grown-by (successor c ∷ []) (successor-IsBlank c h, tt) refl, λ q. cc)
next-Grown c (d ∷ rest) h = (refl, Grown-refl _, λ q. cc)

pub depth-blank : (bs : Chain) → All IsBlank bs → depth bs ≡ 0
unfolding depth empty
depth-blank [] h = refl
depth-blank (b ∷ bs) h = ground (arith, h.0.unbooked)

depth-append : (cs bs : Chain) → All IsBlank bs → depth (cs ++ bs) ≡ depth cs
unfolding depth
depth-append [] bs h = depth-blank bs h
depth-append (c ∷ cs) bs h = ground (arith, depth-append cs bs h)

logs-append_blank : (cs bs : Chain) → All IsBlank bs → logs (cs ++ bs) ≡ logs cs
logs-append_blank [] bs h = logs-blank bs h
logs-append_blank (c ∷ cs) bs h = ap (λ r. log c ++ r) (logs-append_blank cs bs h)

WritesAt-append : (w : ℕ) (cs bs : Chain) → All IsBlank bs → WritesAt w cs → WritesAt w (cs ++ bs)
WritesAt-append zero [] bs b h = absurd h
WritesAt-append (suc w) [] bs b h = absurd h
WritesAt-append zero (c ∷ rest) bs b h = record {
  wf = h.wf;
  room = h.room;
  ahead = All-append IsBlank rest bs h.ahead b;
}
WritesAt-append (suc w) (c ∷ rest) bs b (wf, cl, h) = (wf, cl, WritesAt-append w rest bs b h)

module _ {cs ds : Chain} (g : Grown cs ds) where
  -- Growth changes neither the depth nor the entries, and moves no writer.
  pub depth-Grown : depth ds ≡ depth cs
  depth-Grown = rw g.grown (depth-append cs g.added g.added_blank)

  pub logs-Grown : logs ds ≡ logs cs
  logs-Grown = rw g.grown (logs-append_blank cs g.added g.added_blank)

  pub All-Grown : (P : Chunk → Type 0) → ((c : Chunk) → IsBlank c → P c) → All P cs → All P ds
  All-Grown P blanks h = rw g.grown (All-append P cs g.added h (All-map g.added g.added_blank))
    where
      All-map : (bs : Chain) → All IsBlank bs → All P bs
      All-map [] b = tt
      All-map (c ∷ bs) b = (blanks c b.0, All-map bs b.1)

  pub WritesAt-Grown : (w : ℕ) → WritesAt w cs → WritesAt w ds
  WritesAt-Grown w h = rw g.grown (WritesAt-append w cs g.added g.added_blank h)

pub depth-cons : (c : Chunk) (rest : Chain) → empty c ≡ false → depth (c ∷ rest) ≡ depth rest + 1
unfolding depth
depth-cons c rest h = ground arith

pub depth-le-length : (cs : Chain) → depth cs ≤ length cs
unfolding depth
depth-le-length [] = omega arith
depth-le-length (c ∷ cs) = ground (arith, depth-le-length cs)

pub empty-blank : {c : Chunk} → IsBlank c → empty c ≡ true
unfolding empty
empty-blank b = ground arith

pub depth-empty : (c : Chunk) (rest : Chain) → empty c ≡ true → depth (c ∷ rest) ≤ 1
unfolding depth
depth-empty c rest h = ground arith
