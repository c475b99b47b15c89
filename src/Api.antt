-- ===== src/Api.antt =====
-- sqlog_api.go and storage.go: what the queries take and give, and the storage that answers them.
-- `S` is the state of the storage, and `E` are the errors.
use sqlog.Base.{Bool, false, Option, none, some, List, [], Bytes}
use sqlog.Base.Int.{ℤ}
use sqlog.Chunk.{Chunk}

pub record Tick : Type 0 where
  pub index : ℤ
  pub start : ℤ
  pub end : ℤ
  pub count : ℤ
  pub debug : ℤ
  pub info : ℤ
  pub warn : ℤ
  pub error : ℤ

pub record TicksInput : Type 0 where
  pub expr : Bytes
  pub level : List Bytes
  pub epoch_end : ℤ
  pub interval_sec : ℤ
  pub max_result : ℤ

pub record EntriesInput : Type 0 where
  pub expr : Bytes
  pub level : List Bytes
  pub direction : Bytes
  pub epoch_start : ℤ
  pub nanos_start : ℤ
  pub max_result : ℤ

-- A row of the entries: epoch, nanoseconds, level and content.
pub record Row : Type 0 where
  pub epoch : ℤ
  pub nanos : ℤ
  pub level : ℤ
  pub content : Bytes

pub record Output (E : Type 0) : Type 0 where
  pub scheduled : Bool
  pub task_ids : List ℤ
  pub error : Option E
  pub ticks : List Tick
  pub entries : List Row

abbrev pub no_output : {E : Type 0} → Output E
no_output = record { scheduled = false; task_ids = []; error = none; ticks = []; entries = [] }

-- A call's error, or its value. A value of type *Output may be nil, which is `none`.
pub data Answer (E A : Type 0) : Type 0 where
  failed : E → Answer E A
  answered : A → Answer E A

pub record StorageWithApi (S E : Type 0) : Type 0 where
  pub ticks : TicksInput → S → Answer E (Option (Output E)) × S
  pub entries : EntriesInput → S → Answer E (Option (Output E)) × S
  pub result : ℤ → S → Answer E (Option (Output E)) × S
  pub cancel : ℤ → S → Option E × S

-- `Flush` of DummyStorage: no error, and nothing is kept.
unfoldable pub dummy_flush : {S : Type 0} → Chunk → S → Bool × S
dummy_flush c st = (false, st)

-- The methods of sqlog, on a storage that has the queries or does not.
module _ {S E : Type 0} where
  unfoldable pub ask_entries :
      Option (StorageWithApi S E) → EntriesInput → S → Answer E (Option (Output E)) × S
  ask_entries (some s) input st = s.entries input st
  ask_entries none input st = (answered (some no_output), st)

  unfoldable pub ask_ticks :
      Option (StorageWithApi S E) → TicksInput → S → Answer E (Option (Output E)) × S
  ask_ticks (some s) input st = s.ticks input st
  ask_ticks none input st = (answered (some no_output), st)

  unfoldable pub ask_result : Option (StorageWithApi S E) → ℤ → S → Answer E (Option (Output E)) × S
  ask_result (some s) id st = s.result id st
  ask_result none id st = (answered (some no_output), st)

  unfoldable pub ask_cancel : Option (StorageWithApi S E) → ℤ → S → Option E × S
  ask_cancel (some s) id st = s.cancel id st
  ask_cancel none id st = (none, st)
