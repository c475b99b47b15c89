-- ===== src/Chunk/Writing.antt =====
-- `Put` of chunk.go on a chain: it always ends, and on the chain that an ingester builds it adds
-- the entry behind all that was written before.
use sqlog.Base.{
  ℕ, zero, suc, ◌+◌, ◌^◌, ◌≤◌, ◌<◌, ◌≡◌, refl, sym, ◌∙◌, true, false, Option, some, List, [], ◌∷◌,
  ◌++◌, append-nil, arith, ◌==◌, if◌then◌else◌, length, All, Bool-cases, inl, inr, drop,
}
use mathlib.Core.Bool.{false≢true}
use sqlog.Base.Int.{inc32}
use sqlog.Chunk.{
  Entry, Chunk, Chain, max_entries, blank, default_cap, successor, init_head, next, list, store,
  put, forward,
}
use sqlog.Chunk.Invariant.{log, IsWf, IsBlank, closed, log-blank, IsBlank-IsWf, put-IsWf}

-- What `claim` relies on: the cap is one that `NewChunk` gives, and `book` has not wrapped around.
pub record IsSound (c : Chunk) : Type 0 where
  pub cap_pos : 1 ≤ c.cap
  pub cap_max : c.cap ≤ max_entries
  pub unwrapped : c.book < 2 ^ 31

pub IsWf-IsSound : {c : Chunk} → IsWf c → IsSound c
IsWf-IsSound w = omega arith

blank-IsSound : {c : Chunk} → IsBlank c → IsSound c
blank-IsSound b = omega arith

-- What a closed chunk keeps of a `Put`: a full one has counted the attempt.
unfoldable pub passed : Chunk → Chunk
passed c = record c { book = if c.locked then c.book else inc32 c.book }

-- What `Put` does on each side of the test.
put-closed :
    (f : ℕ) (c : Chunk) (rest : Chain) (e : Entry)
    → IsSound c
    → closed c ≡ true
    → put (suc f) (c ∷ rest) e ≡ forward (passed c) rest (put f (next c rest) e)
unfolding put closed passed
put-closed f c rest e s h = ground arith

pub put-open :
    (f : ℕ) (c : Chunk) (rest : Chain) (e : Entry)
    → IsSound c
    → closed c ≡ false
    → put (suc f) (c ∷ rest) e ≡ some (store c c.book e ∷ rest, 0)
unfolding put closed
put-open f c rest e s h = ground arith

closed-blank : {c : Chunk} → IsBlank c → closed c ≡ false
unfolding closed
closed-blank b = ground arith

-- The chunk that `Next` creates.
successor-IsBlank : (c : Chunk) → IsSound c → IsBlank (successor (default_cap c))
unfolding successor default_cap blank
successor-IsBlank c s = ground arith

abbrev pub Succeeds : Option (Chain × ℕ) → Type 0
Succeeds r = (p : Chain × ℕ) × (r ≡ some p)

forward-Succeeds :
    (c : Chunk) (rest : Chain) (r : Option (Chain × ℕ)) → Succeeds r → Succeeds (forward c rest r)
unfolding forward
forward-Succeeds c rest r (p, h) = rw h ((init_head c rest ∷ p.0, suc p.1), refl)

-- If the entry finds its place behind a closed chunk, it finds one from that chunk on.
put-Succeeds_step :
    (f : ℕ) (c : Chunk) (rest : Chain) (e : Entry)
    → IsSound c
    → Succeeds (put f (next c rest) e)
    → Succeeds (put (suc f) (c ∷ rest) e)
put-Succeeds_step f c rest e s onward = elim (Bool-cases (closed c)) [
  | inr o ↦ (_, put-open f c rest e s o)
  | inl h ↦ rw (put-closed f c rest e s h) (forward-Succeeds (passed c) rest _ onward)
]

put-Succeeds_new :
    (f : ℕ) (c : Chunk) (e : Entry) → IsSound c → Succeeds (put (suc f) (next c []) e)
unfolding next
put-Succeeds_new f c e s =
    let b = successor-IsBlank c s in (_, put-open f _ [] e (blank-IsSound b) (closed-blank b))

-- `Put` ends and does not panic: a round for each chunk of the chain and one for a new chunk are
-- enough, on every chain of chunks with a proper cap and a counter that has not wrapped around.
pub put-Succeeds :
    (f : ℕ) (c : Chunk) (rest : Chain) (e : Entry)
    → length rest + 1 < f
    → IsSound c
    → All IsSound rest
    → Succeeds (put f (c ∷ rest) e)
unfolding next
put-Succeeds zero c rest e h s ss = absurd (omega arith)
put-Succeeds (suc zero) c rest e h s ss = absurd (omega arith)
put-Succeeds (suc (suc f)) c [] e h s ss =
    put-Succeeds_step (suc f) c [] e s (put-Succeeds_new f c e s)
put-Succeeds (suc f) c (n ∷ rest) e h s ss =
    put-Succeeds_step f c (n ∷ rest) e s (put-Succeeds f n rest e (omega arith) ss.0 ss.1)

-- The entries of a chain, chunk by chunk.
abbrev pub logs : Chain → List Entry
logs [] = []
logs (c ∷ rest) = log c ++ logs rest

pub logs-blank : (cs : Chain) → All IsBlank cs → logs cs ≡ []
logs-blank [] h = refl
logs-blank (c ∷ rest) h = rw (log-blank c h.0.unwritten) (logs-blank rest h.1)

-- The chain from the chunk that an ingester writes to: no writer has gone further than its head.
pub record IsWritable (c : Chunk) (rest : Chain) : Type 0 where
  pub wf : IsWf c
  pub room : c.book ≤ c.cap
  pub ahead : All IsBlank rest

-- The writer has reached the chunk with number `w` of a chain, and left only closed chunks behind.
abbrev pub WritesAt : ℕ → Chain → Type 0
WritesAt w [] = ⊥
WritesAt zero (c ∷ rest) = IsWritable c rest
WritesAt (suc w) (c ∷ rest) = IsWf c × (closed c ≡ true) × WritesAt w rest

pub IsWritable-IsSound : {c : Chunk} {rest : Chain} → IsWritable c rest → IsSound c
IsWritable-IsSound w = omega arith

pub IsWritable-blank : {n : Chunk} {rest : Chain} → IsBlank n → All IsBlank rest → IsWritable n rest
IsWritable-blank b bs = record { wf = IsBlank-IsWf b; room = omega arith; ahead = bs }

passed-IsWf : (c : Chunk) → IsWf c → c.book ≤ c.cap → closed c ≡ true → IsWf (passed c)
unfolding passed closed list log
passed-IsWf c w room h = record {
  cap_pos = w.cap_pos;
  cap_max = w.cap_max;
  booked = ground arith;
  written = ground arith;
  filled = w.filled;
  sized = w.sized;
  live = λ l. ground (arith, w.live l);
}

passed-closed :
    (c : Chunk) → c.book ≤ c.cap → c.cap ≤ max_entries → closed c ≡ true → closed (passed c) ≡ true
unfolding passed closed
passed-closed c room m h = ground arith

log-passed : (c : Chunk) → log (passed c) ≡ log c
unfolding log list passed
log-passed c = refl

default_cap-eq : (c : Chunk) → 1 ≤ c.cap → default_cap c ≡ c
unfolding default_cap
default_cap-eq c h = elim (Bool-cases (c.cap == 0)) [ inl z ↦ absurd (ground arith) | inr z ↦ rw z ]

init_head-eq : (c : Chunk) (rest : Chain) → 1 ≤ c.cap → init_head c rest ≡ c
unfolding init_head
init_head-eq c [] h = default_cap-eq c h
init_head-eq c (n ∷ rest) h = refl

init_head-passed : (c : Chunk) (rest : Chain) → 1 ≤ c.cap → init_head (passed c) rest ≡ passed c
unfolding passed
init_head-passed c rest h = init_head-eq (passed c) rest h

-- A chunk that is closed sends the entry to the chunk behind it.
put-forwarded :
    (f : ℕ) (c n : Chunk) (rest ns : Chain) (e : Entry)
    → IsWritable c rest
    → closed c ≡ true
    → next c rest ≡ n ∷ ns
    → IsBlank n
    → put (suc (suc f)) (c ∷ rest) e ≡ some (passed c ∷ store n n.book e ∷ ns, 1)
unfolding forward
put-forwarded f c n rest ns e w h q b =
    rw
      (
        put-closed (suc f) c rest e (IsWritable-IsSound w) h,
        q,
        put-open f n ns e (blank-IsSound b) (closed-blank b),
      )
      (rw (init_head-passed c rest w.wf.cap_pos) refl)

-- The chunk behind is a blank one, created if need be.
next-IsBlank :
    (c : Chunk) (rest : Chain)
    → IsWritable c rest
    → (n : Chunk) × (ns : Chain) × (next c rest ≡ n ∷ ns) × IsBlank n × All IsBlank ns
unfolding next
next-IsBlank c [] w =
    (successor (default_cap c), [], refl, successor-IsBlank c (IsWritable-IsSound w), tt)
next-IsBlank c (n ∷ rest) w = (n, rest, refl, w.ahead.0, w.ahead.1)

store-IsWritable :
    (c : Chunk) (rest : Chain) (e : Entry)
    → IsWritable c rest
    → closed c ≡ false
    → IsWritable (store c c.book e) rest × (log (store c c.book e) ≡ log c ++ e ∷ [])
store-IsWritable c rest e w o =
    let p = put-IsWf c e w.wf o in (record { wf = p.0; room = p.2; ahead = w.ahead }, p.1)

-- On the chunk that a writer has reached `Put` adds the entry behind everything in the chain, and
-- it has then reached the chunk that took the entry: this one, or the next if this one is closed,
-- and then the entry stands behind all that the chunks after this one hold.
pub put-WritesAt :
    (f : ℕ) (c : Chunk) (rest : Chain) (e : Entry)
    → IsWritable c rest
    → (cs : Chain) × (hops : ℕ) × (put (suc (suc f)) (c ∷ rest) e ≡ some (cs, hops))
      × WritesAt hops cs
      × (logs cs ≡ logs (c ∷ rest) ++ e ∷ [])
      × (closed c ≡ true → (hops ≡ 1) × (logs (drop 1 cs) ≡ logs rest ++ e ∷ []))
put-WritesAt f c rest e w = elim (Bool-cases (closed c)) [
  | inr o ↦
      let (w', l) = store-IsWritable c rest e w o in
      (
        store c c.book e ∷ rest,
        0,
        put-open (suc f) c rest e (IsWritable-IsSound w) o,
        w',
        simp (l, logs-blank rest w.ahead, append-nil),
        λ k. absurd (false≢true (sym o ∙ k)),
      )
  | inl h ↦
      let (n, ns, q, b, bs) = next-IsBlank c rest w in
      let (w', l) = store-IsWritable n ns e (IsWritable-blank b bs) (closed-blank b) in
      (
        passed c ∷ store n n.book e ∷ ns,
        1,
        put-forwarded f c n rest ns e w h q b,
        (passed-IsWf c w.wf w.room h, passed-closed c w.room w.wf.cap_max h, w'),
        simp (
          log-passed c,
          l,
          log-blank n b.unwritten,
          logs-blank ns bs,
          logs-blank rest w.ahead,
          append-nil,
        ),
        λ _. (
          refl,
          simp (l, log-blank n b.unwritten, logs-blank ns bs, logs-blank rest w.ahead, append-nil),
        ),
      )
]
