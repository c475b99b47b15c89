-- ===== src/Ingester/Position.antt =====
-- Where the two pointers of the ingester stand, and what the steps of ingester.go on one chunk
-- leave of it.
use sqlog.Base.{
  ℕ, zero, suc, ◌≤◌, ◌≡◌, ◌≢◌, refl, ap, sym, ◌∙◌, Bool, true, false, ◌&&◌, [], ◌∷◌, ◌++◌, arith,
  All, if_both,
}
use mathlib.Core.Path.{subst}
use mathlib.Core.Bool.{false≢true}
use sqlog.Base.Int.{pos, int64, ltb_ℤ}
use sqlog.Chunk.{
  Time, Chunk, Chain, init, init_head, next, empty, depth, ready, lock, list, ttl, seconds,
}
use sqlog.Chunk.Invariant.{log, IsWf, IsBlank, closed, log-blank, IsBlank-IsWf}
use sqlog.Chunk.Writing.{logs, logs-blank, IsWritable, WritesAt}
use sqlog.Chunk.Growth.{
  HasCap, IsWf-HasCap, Grown, Grown-trans, Grown-by, init-Grown, next-Grown, logs-Grown,
  WritesAt-Grown, depth-Grown, depth-cons, depth-blank,
}
use sqlog.Ingester.{IngesterConfig, maintain, retried, leave}

-- The flush pointer stands at number `f` and the write pointer at `w`. All chunks before either
-- are closed. The flush pointer is at most one ahead, and then on a blank chunk.
abbrev pub Positions : ℕ → ℕ → Chain → Type 0
Positions f w [] = ⊥
Positions zero w (c ∷ rest) = WritesAt w (c ∷ rest)
Positions (suc f) zero (c ∷ rest) = IsWritable c rest × (closed c ≡ true) × (f ≡ 0) × (rest ≢ [])
Positions (suc f) (suc w) (c ∷ rest) = IsWf c × (closed c ≡ true) × Positions f w rest

pub Positions-start : (w : ℕ) (cs : Chain) → WritesAt w cs → Positions 0 w cs
Positions-start zero [] h = h
Positions-start (suc w) [] h = h
Positions-start w (c ∷ cs) h = h

pub Positions-writes : (w : ℕ) (cs : Chain) → Positions 0 w cs → WritesAt w cs
Positions-writes w [] h = absurd h
Positions-writes w (c ∷ cs) h = h

pub ready-closed : (c : Chunk) → IsWf c → ready c ≡ true → closed c ≡ true
unfolding ready closed
ready-closed c w h = ground arith

-- A chunk that holds entries and takes no more is ready.
pub closed-ready : (c : Chunk) → IsWf c → empty c ≡ false → closed c ≡ true → ready c ≡ true
unfolding ready closed empty
closed-ready c w h k = ground arith

pub WritesAt-All : (w : ℕ) (cs : Chain) → WritesAt w cs → All IsWf cs
WritesAt-All zero [] h = absurd h
WritesAt-All (suc w) [] h = absurd h
WritesAt-All zero (c ∷ rest) h = (h.wf, blanks rest h.ahead)
  where
    blanks : (bs : Chain) → All IsBlank bs → All IsWf bs
    blanks [] b = tt
    blanks (d ∷ bs) b = (IsBlank-IsWf b.0, blanks bs b.1)
WritesAt-All (suc w) (c ∷ rest) h = (h.0, WritesAt-All w rest h.2)

pub All-HasCap : (cs : Chain) → All IsWf cs → All HasCap cs
All-HasCap [] h = tt
All-HasCap (c ∷ cs) h = (IsWf-HasCap h.0, All-HasCap cs h.1)

-- A step on one chunk that changes nothing but the lock and the retries.
record SameEntries (c d : Chunk) : Type 0 where
  wf : IsWf c → IsWf d
  closes : closed c ≡ true → closed d ≡ true
  room : c.book ≤ c.cap → d.book ≤ d.cap
  same_log : log d ≡ log c

WritesAt-SameEntries :
    (w : ℕ) (c d : Chunk) (rest : Chain)
    → SameEntries c d
    → WritesAt w (c ∷ rest)
    → WritesAt w (d ∷ rest)
WritesAt-SameEntries zero c d rest s h = record {
  wf = s.wf h.wf;
  room = s.room h.room;
  ahead = h.ahead;
}
WritesAt-SameEntries (suc w) c d rest s (wf, cl, h) = (s.wf wf, s.closes cl, h)

lock-IsWf : (c : Chunk) → empty c ≡ false → IsWf c → IsWf (lock c)
unfolding lock log list empty
lock-IsWf c e w = record {
  cap_pos = w.cap_pos;
  cap_max = w.cap_max;
  booked = w.booked;
  written = w.written;
  filled = w.filled;
  sized = w.sized;
  live = λ _. ground arith;
}

lock-SameEntries : (c : Chunk) → empty c ≡ false → SameEntries c (lock c)
unfolding lock log list closed
lock-SameEntries c e = record {
  wf = lock-IsWf c e;
  closes = λ h. refl;
  room = λ h. h;
  same_log = refl;
}

retried-IsWf : (b : Bool) (c : Chunk) → IsWf c → IsWf (retried b c)
unfolding retried log list
retried-IsWf false c w = w
retried-IsWf true c w = record {
  cap_pos = w.cap_pos;
  cap_max = w.cap_max;
  booked = w.booked;
  written = w.written;
  filled = w.filled;
  sized = w.sized;
  live = w.live;
}

retried-SameEntries : (b : Bool) (c : Chunk) → SameEntries c (retried b c)
unfolding retried log list closed
retried-SameEntries false c = record {
  wf = λ w. w;
  closes = λ h. h;
  room = λ h. h;
  same_log = refl;
}
retried-SameEntries true c = record {
  wf = retried-IsWf true c;
  closes = λ h. h;
  room = λ h. h;
  same_log = refl;
}

module _ (b : Bool) (c : Chunk) where
  pub IsWf-retried : IsWf c → IsWf (retried b c)
  IsWf-retried = (retried-SameEntries b c).wf

  pub closed-retried : closed c ≡ true → closed (retried b c) ≡ true
  closed-retried = (retried-SameEntries b c).closes

  pub log-retried : log (retried b c) ≡ log c
  log-retried = (retried-SameEntries b c).same_log

  pub WritesAt-retried :
      (w : ℕ) (rest : Chain) → WritesAt w (c ∷ rest) → WritesAt w (retried b c ∷ rest)
  WritesAt-retried w rest = WritesAt-SameEntries w c _ rest (retried-SameEntries b c)

pub WritesAt-lock :
    (w : ℕ) (c : Chunk) (rest : Chain)
    → empty c ≡ false
    → WritesAt w (c ∷ rest)
    → WritesAt w (lock c ∷ rest)
WritesAt-lock w c rest e = WritesAt-SameEntries w c _ rest (lock-SameEntries c e)

pub log-lock : (c : Chunk) → log (lock c) ≡ log c
unfolding log list lock
log-lock c = refl

pub closed-lock : (c : Chunk) → closed (lock c) ≡ true
unfolding closed lock
closed-lock c = refl

pub init-keeps :
    (n w : ℕ) (c : Chunk) (rest : Chain)
    → WritesAt w (c ∷ rest)
    → WritesAt w (init n (c ∷ rest)) × (logs (init n (c ∷ rest)) ≡ logs (c ∷ rest))
init-keeps n w c rest h =
    let caps = All-HasCap (c ∷ rest) (WritesAt-All w (c ∷ rest) h) in
    let g = init-Grown n c rest caps.0 caps.1 in (WritesAt-Grown g w h, logs-Grown g)

locked-keeps :
    (n w : ℕ) (c : Chunk) (rest : Chain)
    → empty c ≡ false
    → WritesAt w (c ∷ rest)
    → WritesAt w (init n (lock c ∷ rest)) × (logs (init n (lock c ∷ rest)) ≡ logs (c ∷ rest))
locked-keeps n w c rest e h =
    let k =
      init-keeps n w (lock c) rest (WritesAt-SameEntries w c _ rest (lock-SameEntries c e) h) in
    (k.0, k.1 ∙ ap (λ l. l ++ logs rest) (log-lock c))

pub maintain-keeps :
    (config : IngesterConfig) (now : Time) (w : ℕ) (c : Chunk) (rest : Chain)
    → empty c ≡ false
    → WritesAt w (c ∷ rest)
    → WritesAt w (maintain config now c rest)
      × (logs (maintain config now c rest) ≡ logs (c ∷ rest))
unfolding maintain
maintain-keeps config now w c rest e h =
    let k = locked-keeps config.chunks w c rest e h in
    let Kept : Chain → Type 0 = λ cs. WritesAt w cs × (logs cs ≡ logs (c ∷ rest)) in
    if_both Kept (ltb_ℤ config.flush_after_sec (seconds (ttl now c))) k (
      if_both Kept
        (ltb_ℤ (pos 0) config.max_chunk_size_bytes
          && ltb_ℤ config.max_chunk_size_bytes (int64 c.size))
        k (h, refl))

pub cons_of_ne : (cs : Chain) → cs ≢ [] → (d : Chunk) × (ds : Chain) × (cs ≡ d ∷ ds)
cons_of_ne [] h = absurd (h refl)
cons_of_ne (d ∷ ds) h = (d, ds, refl)

leave_eq :
    (n : ℕ) (c d : Chunk) (rest r ds : Chain)
    → init n (c ∷ rest) ≡ c ∷ r
    → init_head c r ≡ c
    → next c r ≡ d ∷ ds
    → leave (init n (c ∷ rest)) c ≡ (c, d ∷ ds)
unfolding leave
leave_eq n c d rest r ds g same q = rw (g, same, q)

-- What is behind the chunk that the flush pointer leaves: the rest of the chain, grown, and not nil.
pub leave-Grown :
    (n : ℕ) (c : Chunk) (rest : Chain)
    → IsWf c
    → All IsWf rest
    → (d : Chunk) × (ds : Chain) × Grown rest (d ∷ ds) × (leave (init n (c ∷ rest)) c ≡ (c, d ∷ ds))
unfolding leave
leave-Grown n c rest w ws =
    let cap = IsWf-HasCap w in
    let g = init-Grown n c rest cap (All-HasCap rest ws) in
    let (same, k, ne) = next-Grown c (rest ++ g.added) cap in
    let (d, ds, q) = cons_of_ne (next c (rest ++ g.added)) ne in
    (
      d,
      ds,
      subst (Grown rest) q (Grown-trans (Grown-by g.added g.added_blank refl) k),
      leave_eq n c d rest (rest ++ g.added) ds g.grown same q,
    )

init-depth :
    (n : ℕ) (c : Chunk) (rest : Chain)
    → All IsWf (c ∷ rest)
    → depth (init n (c ∷ rest)) ≡ depth (c ∷ rest)
init-depth n c rest w =
    let caps = All-HasCap (c ∷ rest) w in depth-Grown (init-Grown n c rest caps.0 caps.1)

pub depth-lock : (c : Chunk) (rest : Chain) → depth (lock c ∷ rest) ≡ depth (c ∷ rest)
unfolding depth lock empty
depth-lock c rest = refl

maintain-depth :
    (config : IngesterConfig) (now : Time) (c : Chunk) (rest : Chain)
    → empty c ≡ false
    → All IsWf (c ∷ rest)
    → depth (maintain config now c rest) ≡ depth (c ∷ rest)
unfolding maintain
maintain-depth config now c rest e w =
    let k = init-depth config.chunks (lock c) rest (lock-IsWf c e w.0, w.1) ∙ depth-lock c rest in
    let Same : Chain → Type 0 = λ cs. depth cs ≡ depth (c ∷ rest) in
    if_both Same (ltb_ℤ config.flush_after_sec (seconds (ttl now c))) k (
      if_both Same
        (ltb_ℤ (pos 0) config.max_chunk_size_bytes
          && ltb_ℤ config.max_chunk_size_bytes (int64 c.size))
        k refl)

-- A chunk with entries that is not ready is the one that the writer stands on.
pub maintain-short :
    (config : IngesterConfig) (now : Time) (w : ℕ) (c : Chunk) (rest : Chain)
    → WritesAt w (c ∷ rest)
    → empty c ≡ false
    → ready c ≡ false
    → depth (maintain config now c rest) ≤ 1
maintain-short config now zero c rest h e k = omega (
  arith,
  maintain-depth config now c rest e (WritesAt-All 0 (c ∷ rest) h),
  depth-cons c rest e,
  depth-blank rest h.ahead,
)
maintain-short config now (suc w) c rest h e k =
    absurd (false≢true (sym k ∙ closed-ready c h.0 e h.1))

closed-live : (c : Chunk) → IsWf c → closed c ≡ true → empty c ≡ false
unfolding closed empty
closed-live c w h = ground (arith, w.live)

unwritten : (c : Chunk) → IsWf c → empty c ≡ true → c.write ≡ 0
unfolding empty
unwritten c w h = ground arith

-- Behind an empty chunk nothing is written.
pub logs-empty :
    (w : ℕ) (c : Chunk) (rest : Chain)
    → WritesAt w (c ∷ rest)
    → empty c ≡ true
    → (logs rest ≡ []) × (log c ≡ [])
logs-empty zero c rest h e = (logs-blank rest h.ahead, log-blank c (unwritten c h.wf e))
logs-empty (suc w) c rest (wf, cl, h) e = absurd (false≢true (sym (closed-live c wf cl) ∙ e))
