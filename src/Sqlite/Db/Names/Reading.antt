-- ===== src/Sqlite/Db/Names/Reading.antt =====
-- A name that `newDb` or `close` of sqlite/storage_db.go gives a file is read back by `initDbs`.
use sqlog.Base.{
  ℕ, ◌≡◌, refl, sym, ap, ◌∙◌, true, false, Option, none, some, [], ◌∷◌, ◌++◌, ◌==◌, if◌then◌else◌,
  Bytes, codes, bytes_eq, bytes_eq→≡, length, length-append, append_assoc, arith, Bool-cases, inl,
  inr, not, ◌||◌,
}
use sqlog.Base.Int.{ℤ, pos}
use sqlog.Base.Decimal.{
  parsed, bad_syntax, out_of_range, format_int, is_digit, IsInt64, IsNumeral, parse_int-format_int,
  format_int-IsNumeral,
}
use sqlog.Expr.Text.{cut_prefix, is_empty}
use sqlog.Sqlite.Db.{db_name}
use sqlog.Sqlite.Db.Names.{
  ext, trim_suffix, trim_prefix, has_prefix, split, epoch_of, end_of, read_name, read_epochs,
  middle,
}

cut_prefix-append : (p s : Bytes) → cut_prefix p (p ++ s) ≡ some s
unfolding cut_prefix
cut_prefix-append [] s = refl
cut_prefix-append (c ∷ p) s = ground (arith, cut_prefix-append p s)

ext-append : (s : Bytes) → ext (s ++ codes ".db") ≡ codes ".db"
unfolding ext is_empty
ext-append [] = refl
ext-append (c ∷ s) = rw (ext-append s) refl

longer : (c : ℕ) (s t : Bytes) → bytes_eq (c ∷ (s ++ t)) t ≡ false
longer c s t = elim (Bool-cases (bytes_eq (c ∷ (s ++ t)) t)) [
  | inl same ↦
      absurd (omega (arith, ap length (bytes_eq→≡ (c ∷ (s ++ t)) t same), length-append s t))
  | inr other ↦ other
]

trim_suffix-append : (s : Bytes) → trim_suffix (codes ".db") (s ++ codes ".db") ≡ s
unfolding trim_suffix
trim_suffix-append [] = refl
trim_suffix-append (c ∷ s) = rw (longer c s (codes ".db"), trim_suffix-append s) refl

split-numeral : (s : Bytes) → IsNumeral s → split b'_' s ≡ (s, [])
unfolding split is_digit
split-numeral [] h = refl
split-numeral (c ∷ s) h =
    let other : (c == b'_') ≡ false = ground (arith, h.0) in rw (split-numeral s h.1, other) refl

epoch_of-format_int : (z : ℤ) → IsInt64 z → epoch_of (format_int z) ≡ some z
unfolding epoch_of
epoch_of-format_int z h =
    ap (λ p. elim p [ parsed x ↦ some x | bad_syntax ↦ none | out_of_range x ↦ none ])
      (parse_int-format_int z h)

has_prefix-append : (p s : Bytes) → has_prefix p (p ++ s) ≡ true
unfolding has_prefix
has_prefix-append p s =
    ap (λ (o : Option Bytes). elim o [ none ↦ false | some rest ↦ true ]) (cut_prefix-append p s)

trim_prefix-append : (p s : Bytes) → trim_prefix p (p ++ s) ≡ s
unfolding trim_prefix
trim_prefix-append p s =
    ap (λ (o : Option Bytes). elim o [ none ↦ p ++ s | some rest ↦ rest ]) (cut_prefix-append p s)

-- The extension stands behind the rest of the name.
db_name-split :
    (prefix : Bytes) (epoch : ℤ)
    → db_name prefix epoch ≡ (prefix ++ (codes "_" ++ format_int epoch)) ++ codes ".db"
unfolding db_name
db_name-split prefix epoch = sym (append_assoc prefix (codes "_" ++ format_int epoch) (codes ".db"))

middle-db_name :
    (prefix : Bytes) (epoch : ℤ) → middle prefix (db_name prefix epoch) ≡ format_int epoch
unfolding middle db_name
middle-db_name prefix epoch =
    ap (λ s. trim_suffix (codes ".db") (trim_prefix (prefix ++ codes "_") s))
      (sym (append_assoc prefix (codes "_") (format_int epoch ++ codes ".db")))
    ∙ ap (trim_suffix (codes ".db"))
        (trim_prefix-append (prefix ++ codes "_") (format_int epoch ++ codes ".db"))
    ∙ trim_suffix-append (format_int epoch)

is_db-db_name :
    (prefix : Bytes) (epoch : ℤ) → bytes_eq (ext (db_name prefix epoch)) (codes ".db") ≡ true
is_db-db_name prefix epoch =
    ap (λ s. bytes_eq (ext s) (codes ".db")) (db_name-split prefix epoch)
    ∙ ap (λ s. bytes_eq s (codes ".db")) (ext-append (prefix ++ (codes "_" ++ format_int epoch)))

has_prefix-db_name : (prefix : Bytes) (epoch : ℤ) → has_prefix prefix (db_name prefix epoch) ≡ true
unfolding db_name
has_prefix-db_name prefix epoch =
    has_prefix-append prefix (codes "_" ++ (format_int epoch ++ codes ".db"))

read_epochs-numeral : (z : ℤ) → IsInt64 z → read_epochs (format_int z, []) ≡ some (z, pos 0)
unfolding read_epochs end_of
read_epochs-numeral z h =
    ap (λ (o : Option ℤ). elim o [ none ↦ none | some start ↦ some (start, pos 0) ])
      (epoch_of-format_int z h)

-- Whatever the prefix, and for every epoch of an int64, the name that `newDb` and `close` give the
-- file of a database is read back by `initDbs` as a database of this start without an end.
pub read_name-db_name :
    (prefix : Bytes) (epoch : ℤ)
    → IsInt64 epoch
    → read_name prefix (db_name prefix epoch) ≡ some (epoch, pos 0)
unfolding read_name
read_name-db_name prefix epoch h =
    ap
      (λ b.
        if not b || not (bytes_eq (ext (db_name prefix epoch)) (codes ".db"))
        then none
        else read_epochs (split b'_' (middle prefix (db_name prefix epoch))))
      (has_prefix-db_name prefix epoch)
    ∙ ap
        (λ b.
          if not b then none else read_epochs (split b'_' (middle prefix (db_name prefix epoch))))
        (is_db-db_name prefix epoch)
    ∙ ap (λ s. read_epochs (split b'_' s)) (middle-db_name prefix epoch)
    ∙ ap read_epochs (split-numeral (format_int epoch) (format_int-IsNumeral epoch))
    ∙ read_epochs-numeral epoch h
