-- ===== src/Handler/Handling.antt =====
-- What `Handle` of handler.go does with a record, whatever the handlers have done before.
use sqlog.Base.{
  ℕ, ◌<◌, ◌≡◌, refl, sym, ap, ◌∙◌, ltb, Bool, true, false, Option, none, some, List, [], ◌∷◌, ◌++◌,
  leb, if◌then◌else◌, Bytes, length, arith, if_both, if_cases,
}
use sqlog.Base.Int.{ℤ}
use sqlog.Chunk.{Time}
use sqlog.Expr.Text.{is_empty}
use sqlog.Handler.{
  LogRecord, Writer, Sink, Handler, bbcap, int8, root, lookup, fanout, derive, get, enabled_self,
  fanned_out, hand_in, give_back, finish, write_encoded, write, with_writer, handle_by, handle,
}
use sqlog.Handler.Pools.{path, HasPools, Same-refl, Got, get-Got, path-here}
use sqlog.Handler.Keeping.{
  root-HasPools, Kept, Kept_trans, put_back-Kept, fanout-Kept, derive-HasPools, lookup-some,
}

module _ {M A S E : Type 0} (level : Option ℤ) (sink_enabled : ℕ → ℤ → Bool)
    (encode : List M → LogRecord A → Option E × Bytes) (grown : ℕ → ℕ → ℕ)
    (ingest : Time → ℤ → Bytes → S → Option E × S) where
  -- What becomes of an encoded record.
  unfoldable pub deliver : LogRecord A → Option E × Bytes → S → Option E × S
  deliver r (some e, text) st = (some e, st)
  deliver r (none, text) st =
      if is_empty text then (none, st) else ingest r.time (int8 r.level) text st

  -- What `Handle` of a handler with these changes does to the ingester, and what it returns.
  unfoldable pub reference : List M → LogRecord A → S → Option E × S
  unfolding deliver
  reference changes r st =
      if enabled_self level r.level then deliver r (encode changes r) st else (none, st)

  record Written (hs : List (Handler M)) (wanted : Option E × S)
      (o : Option E × S × List (Handler M)) : Type 0 where
    pub outcome : ◌≡◌ {A = Option E × S} (o.0, o.1) wanted
    pub kept : Kept hs o.2

  give_back-Kept :
      (i : ℕ) (w : Writer M) (text : Bytes) (hs : List (Handler M))
      → w.encoder ≡ path i hs
      → HasPools hs
      → Kept hs (give_back level sink_enabled encode grown ingest i w text hs)
  unfolding give_back
  give_back-Kept i w text hs e p =
      if_both (Kept hs) (leb (grown w.cap (length text)) bbcap)
        (put_back-Kept i (record w { cap = grown w.cap (length text) }) hs e p) (p, Same-refl hs)

  finish-Written :
      (i : ℕ) (w : Writer M) (text : Bytes) (hs : List (Handler M)) (answer : Option E × S)
      → w.encoder ≡ path i hs
      → HasPools hs
      → Written hs answer (finish level sink_enabled encode grown ingest i w text hs answer)
  unfolding finish
  finish-Written i w text hs (some x, st) e p = record { outcome = refl; kept = (p, Same-refl hs) }
  finish-Written i w text hs (none, st) e p = record {
    outcome = refl;
    kept = give_back-Kept i w text hs e p;
  }

  write-Written :
      (i : ℕ) (r : LogRecord A) (w : Writer M) (hs : List (Handler M)) (st : S)
      (encoded : Option E × Bytes)
      → w.encoder ≡ path i hs
      → HasPools hs
      → Written hs
          (deliver r encoded st)
          (write_encoded level sink_enabled encode grown ingest i r w hs st encoded)
  unfolding write_encoded deliver hand_in
  write-Written i r w hs st (some x, text) e p = record { outcome = refl; kept = (p, Same-refl hs) }
  write-Written i r w hs st (none, text) e p =
      finish-Written i w text hs
        (if is_empty text then (none, st) else ingest r.time (int8 r.level) text st) e p

  -- `Handle` has done with the record what the reference does, and the handlers are the same.
  abbrev Handled :
      List (Handler M)
      → Option E × S
      → Option (List (Sink M) × Option E × S × List (Handler M))
      → Type 0
  Handled hs wanted none = ⊥
  Handled hs wanted (some (sent, e, st, hs')) =
      (◌≡◌ {A = Option E × S} (e, st) wanted) × Kept hs hs'

  Got-Handled :
      (i : ℕ) (r : LogRecord A) (hs : List (Handler M)) (st : S) (sent : List (Sink M))
      (o : Option (Writer M × List (Handler M)))
      → Got (path i hs) hs o
      → Handled hs
          (deliver r (encode (path i hs) r) st)
          (with_writer level sink_enabled encode grown ingest i r sent st o)
  unfolding Got with_writer write
  Got-Handled i r hs st sent none g = absurd g
  Got-Handled i r hs st sent (some (w, hs')) g =
      let e : w.encoder ≡ path i hs' = g.0 ∙ sym (g.2.paths i) in
      let done = write-Written i r w hs' st (encode w.encoder r) e g.1 in
      (done.outcome ∙ ap (λ c. deliver r (encode c r) st) g.0, Kept_trans g.2 done.kept)

  module _ (choice : ℕ → Option ℕ) (i : ℕ) (r : LogRecord A) (hs : List (Handler M)) (st : S)
      (b : i < length hs) (p : HasPools hs) where
    enabled-Handled :
        (sent : List (Sink M)) (on : Bool)
        → Handled hs (if on then deliver r (encode (path i hs) r) st else (none, st)) (
            if on
            then with_writer level sink_enabled encode grown ingest i r sent st (get choice i hs)
            else some (sent, none, st, hs))
    enabled-Handled sent true =
        Got-Handled i r hs st sent (get choice i hs) (get-Got choice i hs b p)
    enabled-Handled sent false = (refl, (p, Same-refl hs))

    found-Handled :
        (o : Option (Handler M))
        → (h : Handler M) × (o ≡ some h)
        → Handled hs
            (reference (path i hs) r st)
            (handle_by level sink_enabled encode grown ingest choice i r hs st o)
    unfolding reference handle_by
    found-Handled none (h, q) = cc
    found-Handled (some h) q =
        enabled-Handled (fanned_out level sink_enabled encode grown ingest r.level h.handlers)
          (enabled_self level r.level)

    handle-Handled :
        Handled hs
          (reference (path i hs) r st)
          (handle level sink_enabled encode grown ingest choice i r hs st)
    unfolding handle
    handle-Handled = found-Handled (lookup i hs) (lookup-some i hs b)

  -- A call of a method of one of the handlers.
  pub data Op : Type 0 where
    handles : (ℕ → Option ℕ) → ℕ → LogRecord A → Op
    derives : ℕ → M → Op
    fans_out : ℕ → List (Sink M) → Op

  unfoldable pub step : Op → List (Handler M) × S → List (Handler M) × S
  step (handles choice i r) (hs, st) =
      if ltb i (length hs)
      then elim (handle level sink_enabled encode grown ingest choice i r hs st) [
        | none ↦ (hs, st)
        | some (sent, e, st', hs') ↦ (hs', st')
      ]
      else (hs, st)
  step (derives i m) (hs, st) = if ltb i (length hs) then (derive i m hs, st) else (hs, st)
  step (fans_out i sinks) (hs, st) = (fanout i sinks hs, st)

  unfoldable pub run : List Op → List (Handler M) × S → List (Handler M) × S
  unfolding step
  run [] s = s
  run (op ∷ ops) s = run ops (step op s)

  -- An operation on a handler that is not there does nothing.
  Handled-HasPools :
      (hs : List (Handler M)) (st : S) (wanted : Option E × S)
      (o : Option (List (Sink M) × Option E × S × List (Handler M)))
      → Handled hs wanted o
      → HasPools
          (elim o as (λ _. List (Handler M) × S) [
            | none ↦ (hs, st)
            | some (sent, e, st', hs') ↦ (hs', st')
          ]).0
  Handled-HasPools hs st wanted none h = absurd h
  Handled-HasPools hs st wanted (some (sent, e, st', hs')) h = h.1.0

  step-HasPools : (op : Op) (s : List (Handler M) × S) → HasPools s.0 → HasPools (step op s).0
  unfolding step
  step-HasPools (handles choice i r) (hs, st) p =
      if_cases (λ (s : List (Handler M) × S). HasPools s.0) (ltb i (length hs))
        (λ b.
          Handled-HasPools hs st (reference (path i hs) r st)
            (handle level sink_enabled encode grown ingest choice i r hs st)
            (handle-Handled choice i r hs st (ground (arith, b)) p))
        (λ _. p)
  step-HasPools (derives i m) (hs, st) p =
      if_cases (λ (s : List (Handler M) × S). HasPools s.0) (ltb i (length hs))
        (λ b. derive-HasPools i m hs (ground (arith, b)) p) (λ _. p)
  step-HasPools (fans_out i sinks) (hs, st) p = (fanout-Kept i sinks hs p).0

  run-HasPools : (ops : List Op) (s : List (Handler M) × S) → HasPools s.0 → HasPools (run ops s).0
  unfolding run
  run-HasPools [] s p = p
  run-HasPools (op ∷ ops) s p = run-HasPools ops (step op s) (step-HasPools op s p)

  Handled-some :
      (hs : List (Handler M)) (wanted : Option E × S)
      (o : Option (List (Sink M) × Option E × S × List (Handler M)))
      → Handled hs wanted o
      → (sent : List (Sink M)) × (e : Option E) × (st : S) × (hs' : List (Handler M)) × (o
          ≡ some (sent, e, st, hs'))
        × (◌≡◌ {A = Option E × S} (e, st) wanted)
        × ((j : ℕ) → path j hs' ≡ path j hs)
  Handled-some hs wanted none h = absurd h
  Handled-some hs wanted (some (sent, e, st, hs')) h = (sent, e, st, hs', refl, h.0, h.1.1.paths)

  path-derive :
      (i : ℕ) (m : M) (hs : List (Handler M))
      → path (length hs) (derive i m hs) ≡ path i hs ++ m ∷ []
  unfolding derive
  path-derive i m hs = path-here (length hs) _ hs (ground arith)

  -- Whatever the handlers have been called for, and whatever writers the pools give: `Handle`
  -- encodes the record with just the changes that its handler was derived with, in their order,
  -- if the level is enabled, and gives what that writes, if anything, to the ingester; it returns
  -- the first error. Each handler keeps its changes, and one that is derived from it has one more.
  pub handle-derived :
      (ops : List Op) (st : S) (choice : ℕ → Option ℕ) (i : ℕ) (r : LogRecord A)
      → i < length (run ops (root ∷ [], st)).0
      → let (hs, st') = run ops (root ∷ [], st) in
        ((sent : List (Sink M)) × (e : Option E) × (st'' : S) × (hs' : List (Handler M)) × (handle
              level sink_enabled encode grown ingest choice i r hs st'
            ≡ some (sent, e, st'', hs'))
          × (◌≡◌ {A = Option E × S} (e, st'') (reference (path i hs) r st'))
          × ((j : ℕ) → path j hs' ≡ path j hs))
        × ((m : M) → path (length hs) (derive i m hs) ≡ path i hs ++ m ∷ [])
  handle-derived ops st choice i r b =
      let (hs, st') = run ops (root ∷ [], st) in
      let p = run-HasPools ops (root ∷ [], st) (root-HasPools M) in
      (
        Handled-some hs (reference (path i hs) r st') _ (handle-Handled choice i r hs st' b p),
        λ m. path-derive i m hs,
      )
