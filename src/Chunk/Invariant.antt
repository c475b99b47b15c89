-- ===== src/Chunk/Invariant.antt =====
-- The well-formed chunk of chunk.go, what it has accepted, and what each method keeps of it.
use sqlog.Base.{
  ℕ, zero, suc, ◌+◌, ◌%◌, ◌^◌, ◌≤◌, ◌<◌, min, ◌≡◌, refl, ap, sym, ◌∙◌, Bool, true, false, ◌||◌,
  Option, none, some, List, [], ◌∷◌, ◌++◌, map, arith, leb, length, ==_iff,
}
use mathlib.Core.Bool.{false≢true}
use mathlib.Core.Path.{subst}
use sqlog.Base.Int.{ℤ, inc32, add64}
use sqlog.Chunk.{Entry, Chunk, max_entries, blank, clamp_cap, new_chunk, first, list, update, store}

-- The entries of a list of slots, with the empty slots left out.
abbrev pub present : List (Option Entry) → List Entry
present [] = []
present (none ∷ l) = present l
present (some e ∷ l) = e ∷ present l

-- What a chunk holds.
unfoldable pub log : Chunk → List Entry
unfolding list
log c = present (list c)

-- The sum of the lengths of the contents.
abbrev pub total : List Entry → ℕ
total [] = 0
total (e ∷ l) = length e.content + total l

pub record IsWf (c : Chunk) : Type 0 where
  pub cap_pos : 1 ≤ c.cap
  pub cap_max : c.cap ≤ max_entries
  pub booked : c.book ≤ c.cap + 1
  pub written : c.write ≡ min c.book c.cap
  pub filled : list c ≡ map some (log c)
  pub sized : c.size ≡ total (log c) % 2 ^ 64
  pub live : c.locked ≡ true → 0 < c.book

-- A chunk that no writer has reached.
pub record IsBlank (c : Chunk) : Type 0 where
  pub cap_pos : 1 ≤ c.cap
  pub cap_max : c.cap ≤ max_entries
  pub unbooked : c.book ≡ 0
  pub unwritten : c.write ≡ 0
  pub unsized : c.size ≡ 0
  pub unlocked : c.locked ≡ false

-- `Put` sends an entry on to the next chunk.
unfoldable pub closed : Chunk → Bool
closed c = c.locked || leb c.cap c.book

list-blank : (c : Chunk) → c.write ≡ 0 → list c ≡ []
unfolding list first
list-blank c h = rw h

pub log-blank : (c : Chunk) → c.write ≡ 0 → log c ≡ []
unfolding log
log-blank c h = rw (list-blank c h)

pub blank-IsBlank : (i n : ℕ) → 1 ≤ n → n ≤ max_entries → IsBlank (blank i n)
unfolding blank
blank-IsBlank i n h k = record {
  cap_pos = h;
  cap_max = k;
  unbooked = refl;
  unwritten = refl;
  unsized = refl;
  unlocked = refl;
}

pub new_chunk-IsBlank : (n : ℤ) → IsBlank (new_chunk n)
unfolding new_chunk blank clamp_cap
new_chunk-IsBlank n = blank-IsBlank 0 _ (omega arith) (omega arith)

pub IsBlank-IsWf : {c : Chunk} → IsBlank c → IsWf c
unfolding log
IsBlank-IsWf {c} b = record {
  cap_pos = b.cap_pos;
  cap_max = b.cap_max;
  booked = omega arith;
  written = omega arith;
  filled = rw (list-blank c b.unwritten);
  sized = rw (list-blank c b.unwritten) b.unsized;
  live = λ l. absurd (false≢true (sym b.unlocked ∙ l));
}

-- A slot that is written beyond the first n does not change them.
first-update {ℓ} :
    {A : Type ℓ} (n : ℕ) (f : ℕ → A) (i : ℕ) (a : A) → n ≤ i → first n (update f i a) ≡ first n f
unfolding first update
first-update zero f i a h = refl
first-update (suc n) f i a h = ground (arith, first-update n f i a, ==_iff i n)

first-update-suc {ℓ} :
    {A : Type ℓ} (n : ℕ) (f : ℕ → A) (a : A) → first (suc n) (update f n a) ≡ first n f ++ a ∷ []
unfolding first
first-update-suc n f a =
    ap (λ l. l ++ update f n a n ∷ []) (first-update n f n a (omega arith))
    ∙ ap (λ x. first n f ++ x ∷ []) (unfold update in ground (arith, ==_iff n n))

present-append : (l m : List (Option Entry)) → present (l ++ m) ≡ present l ++ present m
present-append [] m = refl
present-append (none ∷ l) m = present-append l m
present-append (some e ∷ l) m = ap (λ r. e ∷ r) (present-append l m)

total-append : (l m : List Entry) → total (l ++ m) ≡ total l + total m
total-append [] m = omega arith
total-append (e ∷ l) m = omega (arith, total-append l m)

map-append_one : (l : List Entry) (e : Entry) → map some (l ++ e ∷ []) ≡ map some l ++ some e ∷ []
map-append_one [] e = refl
map-append_one (x ∷ l) e = ap (λ r. some x ∷ r) (map-append_one l e)

list-store :
    (c : Chunk) (e : Entry)
    → c.write < max_entries
    → list (store c c.write e) ≡ list c ++ some e ∷ []
unfolding list store
list-store c e h =
    let w : inc32 c.write ≡ suc c.write = omega arith in
    rw w (first-update-suc c.write c.entries (some e))

log-store :
    (c : Chunk) (e : Entry) → c.write < max_entries → log (store c c.write e) ≡ log c ++ e ∷ []
unfolding log
log-store c e h = ap present (list-store c e h) ∙ present-append (list c) (some e ∷ [])

size-store : (c : Chunk) (i : ℕ) (e : Entry) → (store c i e).size ≡ add64 c.size (length e.content)
unfolding store
size-store c i e = refl

module _ (c : Chunk) (e : Entry) (w : IsWf c) (room : closed c ≡ false) where
  book-lt-cap : c.book < c.cap
  unfolding closed
  book-lt-cap = ground arith

  book-eq-write : c.book ≡ c.write
  book-eq-write = omega (arith, book-lt-cap)

  log-store_open : log (store c c.write e) ≡ log c ++ e ∷ []
  log-store_open = log-store c e (omega (arith, book-lt-cap))

  store-filled : list (store c c.write e) ≡ map some (log (store c c.write e))
  store-filled =
      list-store c e (omega (arith, book-lt-cap))
      ∙ ap (λ l. l ++ some e ∷ []) w.filled
      ∙ sym (map-append_one (log c) e)
      ∙ ap (map some) (sym log-store_open)

  store-sized : (store c c.write e).size ≡ total (log (store c c.write e)) % 2 ^ 64
  store-sized = rw (log-store_open, size-store) (omega (arith, total-append (log c) (e ∷ [])))

  store-IsWf : IsWf (store c c.write e)
  unfolding store
  store-IsWf = record {
    cap_pos = w.cap_pos;
    cap_max = w.cap_max;
    booked = omega (arith, book-lt-cap);
    written = omega (arith, book-lt-cap);
    filled = store-filled;
    sized = store-sized;
    live = λ _. omega (arith, book-lt-cap);
  }

  -- A chunk that is open has the entry behind its log, and stays well-formed with room.
  pub put-IsWf :
      IsWf (store c c.book e)
      × (log (store c c.book e) ≡ log c ++ e ∷ [])
      × ((store c c.book e).book ≤ (store c c.book e).cap)
  unfolding store
  put-IsWf =
      subst
        (λ i. IsWf (store c i e) × (log (store c i e) ≡ log c ++ e ∷ []) × (inc32 c.book ≤ c.cap))
        (sym book-eq-write) (store-IsWf, log-store_open, omega (arith, book-lt-cap))
