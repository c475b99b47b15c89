-- ===== src/Handler.antt =====
-- handler.go: the handler of log records. The handlers that WithAttrs and WithGroup derive are a
-- list, the newest first: a handler's number is how many stand behind it, and so its parent stands
-- behind it. `M` are the changes of an encoder, a group or a list of attributes, and an encoder is
-- the list of the changes that were made to the configured one. The encoder, the handlers that
-- records are fanned out to and the ingester are parameters; `E` are errors, `S` is the ingester.
pub mod Pools
pub mod Keeping
pub mod Handling
pub mod Disabled
mod Tests
use sqlog.Base.{
  ℕ, ◌+◌, ◌-◌, ◌%◌, Bool, true, false, ◌||◌, Option, none, some, List, [], ◌∷◌, ◌++◌, map, ltb, leb,
  ◌==◌, if◌then◌else◌, Bytes, length,
}
use sqlog.Base.Int.{ℤ, pos, negsuc, leb_ℤ}
use sqlog.Chunk.{Time}
use sqlog.Expr.Text.{is_empty}

pub record LogRecord (A : Type 0) : Type 0 where
  pub time : Time
  pub level : ℤ
  pub attrs : A

-- The buffer is reset before each use, so that only its capacity is kept.
pub record Writer (M : Type 0) : Type 0 where
  pub encoder : List M
  pub cap : ℕ

-- A handler that records are fanned out to: its number, and the changes made to it.
pub record Sink (M : Type 0) : Type 0 where
  pub id : ℕ
  pub changes : List M

pub record Handler (M : Type 0) : Type 0 where
  pub parent : Option (ℕ × M)
  pub writers : List (Writer M)
  pub handlers : List (Sink M)

abbrev pub buffer_start : ℕ
buffer_start = 1024

-- bbcap
abbrev pub bbcap : ℕ
bbcap = 65536

-- int8(level): the low byte, read as a signed number.
abbrev pub int8 : ℤ → ℤ
int8 (pos n) = if ltb (n % 256) 128 then pos (n % 256) else negsuc (255 - n % 256)
int8 (negsuc n) = if ltb (n % 256) 128 then negsuc (n % 256) else pos (255 - n % 256)

module _ {M : Type 0} where
  -- newHandler
  unfoldable pub root : Handler M
  root = record { parent = none; writers = []; handlers = [] }

  unfoldable pub lookup : ℕ → List (Handler M) → Option (Handler M)
  lookup i [] = none
  lookup i (h ∷ hs) = let rest = lookup i hs in if i == length hs then some h else rest

  unfoldable pub change : ℕ → (Handler M → Handler M) → List (Handler M) → List (Handler M)
  change i f [] = []
  change i f (h ∷ hs) = let rest = change i f hs in if i == length hs then f h ∷ hs else h ∷ rest

  unfoldable pub fanout : ℕ → List (Sink M) → List (Handler M) → List (Handler M)
  unfolding change
  fanout i sinks hs = change i (λ h. record h { handlers = h.handlers ++ sinks }) hs

  unfoldable pub with_sink : M → Sink M → Sink M
  with_sink m s = record s { changes = s.changes ++ m ∷ [] }

  -- WithAttrs and WithGroup
  unfoldable pub derive : ℕ → M → List (Handler M) → List (Handler M)
  unfolding lookup with_sink
  derive i m hs =
      record {
        parent = some (i, m);
        writers = [];
        handlers = elim (lookup i hs) [ none ↦ [] | some h ↦ map (with_sink m) h.handlers ];
      }
      ∷ hs

  -- The item that a pool gives, if it gives one that it has.
  unfoldable pub take_out : ℕ → List (Writer M) → Option (Writer M × List (Writer M))
  take_out k [] = none
  take_out k (w ∷ ws) =
      let rest = take_out (k - 1) ws in
      if k == 0 then some (w, ws) else elim rest [ none ↦ none | some (v, vs) ↦ some (v, w ∷ vs) ]

  unfoldable pub choose : Option ℕ → List (Writer M) → Option (Writer M × List (Writer M))
  unfolding take_out
  choose none ws = none
  choose (some k) ws = take_out k ws

  unfoldable pub behind :
      Handler M → Option (Writer M × List (Handler M)) → Option (Writer M × List (Handler M))
  behind h none = none
  behind h (some (w, hs)) = some (w, h ∷ hs)

  unfoldable pub extended :
      M → Option (Writer M × List (Handler M)) → Option (Writer M × List (Handler M))
  extended m none = none
  extended m (some (w, hs)) = some (record w { encoder = w.encoder ++ m ∷ [] }, hs)

  -- h.writers.Get(): `choice` says of each pool which of its writers it gives, or that it calls New.
  unfoldable pub get : (ℕ → Option ℕ) → ℕ → List (Handler M) → Option (Writer M × List (Handler M))
  unfolding choose behind extended
  get choice i [] = none
  get choice i (h ∷ hs) =
      let elsewhere = get choice i hs in
      let new : Option (Writer M × List (Handler M)) = elim h.parent [
        | none ↦ some (record { encoder = []; cap = buffer_start }, hs)
        | some (p, m) ↦ extended m (get choice p hs)
      ] in
      if i == length hs
      then elim (choose (choice i) h.writers) [
        | some (w, ws) ↦ some (w, record h { writers = ws } ∷ hs)
        | none ↦ behind h new
      ]
      else behind h elsewhere

  -- h.writers.Put(w)
  unfoldable pub put_back : ℕ → Writer M → List (Handler M) → List (Handler M)
  unfolding change
  put_back i w hs = change i (λ h. record h { writers = w ∷ h.writers }) hs

-- The configured level, or Info.
unfoldable pub enabled_self : Option ℤ → ℤ → Bool
enabled_self none l = leb_ℤ (pos 0) l
enabled_self (some min_level) l = leb_ℤ min_level l

module _ {M A S E : Type 0} (level : Option ℤ) (sink_enabled : ℕ → ℤ → Bool)
    (encode : List M → LogRecord A → Option E × Bytes) (grown : ℕ → ℕ → ℕ)
    (ingest : Time → ℤ → Bytes → S → Option E × S) where
  unfoldable pub any_enabled : ℤ → List (Sink M) → Bool
  any_enabled l [] = false
  any_enabled l (s ∷ sinks) = sink_enabled s.id l || any_enabled l sinks

  unfoldable pub enabled : ℤ → Handler M → Bool
  unfolding enabled_self any_enabled
  enabled l h = enabled_self level l || any_enabled l h.handlers

  -- The handlers whose Handle is called.
  unfoldable pub fanned_out : ℤ → List (Sink M) → List (Sink M)
  fanned_out l [] = []
  fanned_out l (s ∷ sinks) =
      let rest = fanned_out l sinks in if sink_enabled s.id l then s ∷ rest else rest

  -- The ingester's answer; it is not called if nothing was written.
  unfoldable pub hand_in : LogRecord A → Bytes → S → Option E × S
  unfolding is_empty
  hand_in r text st = if is_empty text then (none, st) else ingest r.time (int8 r.level) text st

  unfoldable pub give_back : ℕ → Writer M → Bytes → List (Handler M) → List (Handler M)
  unfolding put_back
  give_back i w text hs =
      let cap = grown w.cap (length text) in
      if leb cap bbcap then put_back i (record w { cap = cap }) hs else hs

  unfoldable pub finish :
      ℕ → Writer M → Bytes → List (Handler M) → Option E × S → Option E × S × List (Handler M)
  unfolding give_back
  finish i w text hs (some e, st) = (some e, st, hs)
  finish i w text hs (none, st) = (none, st, give_back i w text hs)

  unfoldable pub write_encoded :
      ℕ
      → LogRecord A
      → Writer M
      → List (Handler M)
      → S
      → Option E × Bytes
      → Option E × S × List (Handler M)
  unfolding hand_in finish
  write_encoded i r w hs st (some e, text) = (some e, st, hs)
  write_encoded i r w hs st (none, text) = finish i w text hs (hand_in r text st)

  -- With a writer: the error, the ingester, and the handlers.
  unfoldable pub write :
      ℕ → LogRecord A → Writer M → List (Handler M) → S → Option E × S × List (Handler M)
  unfolding write_encoded
  write i r w hs st = write_encoded i r w hs st (encode w.encoder r)

  -- With the writer that the pool gives.
  unfoldable pub with_writer :
      ℕ
      → LogRecord A
      → List (Sink M)
      → S
      → Option (Writer M × List (Handler M))
      → Option (List (Sink M) × Option E × S × List (Handler M))
  unfolding write
  with_writer i r sent st none = none
  with_writer i r sent st (some (w, hs)) =
      let (failure, st', hs') = write i r w hs st in some (sent, failure, st', hs')

  unfoldable pub handle_by :
      (ℕ → Option ℕ)
      → ℕ
      → LogRecord A
      → List (Handler M)
      → S
      → Option (Handler M)
      → Option (List (Sink M) × Option E × S × List (Handler M))
  unfolding fanned_out enabled_self get with_writer
  handle_by choice i r hs st none = none
  handle_by choice i r hs st (some h) =
      let sent = fanned_out r.level h.handlers in
      if enabled_self level r.level
      then with_writer i r sent st (get choice i hs)
      else some (sent, none, st, hs)

  -- `Handle` of handler `i`: the handlers that get the record, the error, the ingester and the
  -- handlers behind it. `none` if there is no such handler.
  unfoldable pub handle :
      (ℕ → Option ℕ)
      → ℕ
      → LogRecord A
      → List (Handler M)
      → S
      → Option (List (Sink M) × Option E × S × List (Handler M))
  unfolding lookup handle_by
  handle choice i r hs st = handle_by choice i r hs st (lookup i hs)
