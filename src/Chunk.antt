-- ===== src/Chunk.antt =====
-- chunk.go: the struct `Chunk` and its methods. A chunk is a node of a linked list: a chain is the
-- list of the nodes from one chunk on, and the empty chain is the nil pointer. The methods here run
-- one at a time.
pub mod Invariant
pub mod Writing
pub mod Epochs
pub mod Growth
mod Tests
use sqlog.Base.{
  ℕ, zero, suc, ◌+◌, ◌-◌, ◌/◌, ◌^◌, Bool, true, false, ◌&&◌, ◌||◌, Option, none, some, List, [],
  ◌∷◌, ◌++◌, min, max, ltb, leb, ◌==◌, if◌then◌else◌, length, Bytes,
}
use sqlog.Base.Int.{
  ℤ, pos, negsuc, pos_part, neg_part, ◌-ℤ◌, ◌+ℤ◌, ◌*ℤ◌, ltb_ℤ, eqb_ℤ, int32, inc32, add64,
}

-- time.Time: seconds since 1970 (`Unix()`) and the nanoseconds within the second.
pub record Time : Type 0 where
  pub unix : ℤ
  pub nanos : ℕ

pub record Entry : Type 0 where
  pub time : Time
  pub level : ℤ
  pub content : Bytes

-- The counters are bit patterns of int32 and int64 words.
pub record Chunk : Type 0 where
  pub id : ℕ
  pub cap : ℕ
  pub book : ℕ
  pub write : ℕ
  pub size : ℕ
  pub epoch_start : ℤ
  pub epoch_end : ℤ
  pub retries : ℕ
  pub locked : Bool
  pub entries : ℕ → Option Entry

abbrev pub Chain : Type 0
Chain = List Chunk

-- The length of the array `entries`.
abbrev pub max_entries : ℕ
max_entries = 900

-- &Chunk{cap: cap}, with the id that `Init` gives it
unfoldable pub blank : ℕ → ℕ → Chunk
blank i n = record {
  id = i;
  cap = n;
  book = 0;
  write = 0;
  size = 0;
  epoch_start = pos 0;
  epoch_end = pos 0;
  retries = 0;
  locked = false;
  entries = λ _. none;
}

-- min(max(1, cap), 900)
unfoldable pub clamp_cap : ℤ → ℕ
clamp_cap n = min (max 1 (pos_part n)) max_entries

unfoldable pub new_chunk : ℤ → Chunk
unfolding blank clamp_cap
new_chunk n = blank 0 (clamp_cap n)

-- The part of `Init` that runs while the next pointer is nil.
unfoldable pub default_cap : Chunk → Chunk
default_cap c = if c.cap == 0 then record c { cap = max_entries } else c

unfoldable pub successor : Chunk → Chunk
unfolding blank
successor c = blank (inc32 c.id) c.cap

unfoldable pub init : ℕ → Chain → Chain
unfolding default_cap successor
init zero cs = cs
init (suc d) [] = []
init (suc d) (c ∷ []) = default_cap c ∷ init d (successor (default_cap c) ∷ [])
init (suc d) (c ∷ n ∷ rest) = c ∷ init d (n ∷ rest)

-- `Next` runs Init(1) on `c`: what that leaves of `c`, and the chain of the next chunk.
unfoldable pub init_head : Chunk → Chain → Chunk
unfolding default_cap
init_head c [] = default_cap c
init_head c (n ∷ rest) = c

unfoldable pub next : Chunk → Chain → Chain
unfolding default_cap successor
next c [] = successor (default_cap c) ∷ []
next c (n ∷ rest) = n ∷ rest

unfoldable pub empty : Chunk → Bool
empty c = c.book == 0

unfoldable pub depth : Chain → ℕ
unfolding empty
depth [] = 0
depth (c ∷ rest) = if empty c then 0 else 1 + depth rest

unfoldable pub ready : Chunk → Bool
ready c =
    if c.write == c.cap then true else ltb_ℤ (pos 0) (int32 c.book) && c.write == c.book && c.locked

unfoldable pub lock : Chunk → Chunk
lock c = record c { locked = true }

-- `first n f` lists the first n elements of the array f.
unfoldable pub first {ℓ} : {A : Type ℓ} → ℕ → (ℕ → A) → List A
first zero f = []
first (suc n) f = first n f ++ f n ∷ []

-- c.entries[:write]; nil stands for a slot that is booked and not yet written
unfoldable pub list : Chunk → List (Option Entry)
unfolding first
list c = first c.write c.entries

-- The Go zero time: January 1 of year 1.
abbrev pub zero_time : ℤ
zero_time = negsuc 62135596799

unfoldable pub is_zero : Time → Bool
is_zero t = eqb_ℤ t.unix zero_time && t.nanos == 0

-- now - t, in nanoseconds
unfoldable pub since : Time → Time → ℤ
since now t = (now.unix -ℤ t.unix) *ℤ pos (10 ^ 9) +ℤ (pos now.nanos -ℤ pos t.nanos)

unfoldable pub age_of : Time → Option Entry → ℤ
unfolding is_zero since
age_of now none = pos 0
age_of now (some e) = if is_zero e.time then pos 0 else since now e.time

-- `TTL`: the age of the last entry written, in nanoseconds; 0 without one
unfoldable pub ttl : Time → Chunk → ℤ
unfolding empty age_of
ttl now c = if c.write == 0 || empty c then pos 0 else age_of now (c.entries (c.write - 1))

-- int(d.Seconds()), which truncates toward 0
unfoldable pub seconds : ℤ → ℤ
unfolding ◌-ℤ◌
seconds d = pos (pos_part d / 10 ^ 9) -ℤ pos (neg_part d / 10 ^ 9)

-- What `AddInt32(&c.book, 1) - 1` finds: a chunk that is full, a slot of the array, or an index
-- out of the array's range, where the write panics.
pub data Claim : Type 0 where
  full : Claim
  slot : ℕ → Claim
  out_of_range : Claim

unfoldable pub claim : Chunk → Claim
claim c =
    if ltb c.book (2 ^ 31)
    then (if leb c.cap c.book
        then full
        else if ltb c.book max_entries
        then slot c.book
        else out_of_range)
    else out_of_range

unfoldable pub update {ℓ} : {A : Type ℓ} → (ℕ → A) → ℕ → A → ℕ → A
update f i a j = if i == j then a else f j

unfoldable pub new_epoch_end : ℤ → ℤ → ℤ
new_epoch_end last epoch = if ltb_ℤ last epoch then epoch else last

unfoldable pub new_epoch_start : ℤ → ℤ → ℤ
new_epoch_start start epoch = if eqb_ℤ start (pos 0) || ltb_ℤ epoch start then epoch else start

-- `Put` from the write of the slot on. No other writer runs, so each CompareAndSwap succeeds.
unfoldable pub store : Chunk → ℕ → Entry → Chunk
unfolding update new_epoch_end new_epoch_start
store c i e = record c {
  book = inc32 c.book;
  write = inc32 c.write;
  size = add64 c.size (length e.content);
  epoch_start = new_epoch_start c.epoch_start e.time.unix;
  epoch_end = new_epoch_end c.epoch_end e.time.unix;
  entries = update c.entries i (some e);
}

-- i, _ := c.Next().Put(e); return i, true
unfoldable pub forward : Chunk → Chain → Option (Chain × ℕ) → Option (Chain × ℕ)
unfolding init_head
forward c rest none = none
forward c rest (some (rest', hops)) = some (init_head c rest ∷ rest', suc hops)

-- `Put` on the first chunk of a chain. The result is the chain and how many chunks further the
-- entry went; `isFull` says that this is not 0. `none` is a panic, or the end of the fuel.
unfoldable pub put : ℕ → Chain → Entry → Option (Chain × ℕ)
unfolding next claim store forward
put zero cs e = none
put (suc f) [] e = none
put (suc f) (c ∷ rest) e =
    let onward = put f (next c rest) e in
    if c.locked then forward c rest onward else elim (claim c) [
      | full ↦ forward (record c { book = inc32 c.book }) rest onward
      | slot i ↦ some (store c i e ∷ rest, 0)
      | out_of_range ↦ none
    ]
