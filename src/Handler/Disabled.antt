-- ===== src/Handler/Disabled.antt =====
-- Records of a level that no handler of handler.go is enabled for.
use sqlog.Base.{ℕ, ◌≡◌, refl, ap, ◌∙◌, Bool, false, Option, none, some, List, [], ◌∷◌, Bytes, arith}
use sqlog.Base.Int.{ℤ}
use sqlog.Chunk.{Time}
use sqlog.Handler.{
  LogRecord, Sink, Handler, lookup, enabled_self, any_enabled, enabled, fanned_out, handle_by,
  handle,
}

module _ {M A S E : Type 0} (level : Option ℤ) (sink_enabled : ℕ → ℤ → Bool)
    (encode : List M → LogRecord A → Option E × Bytes) (grown : ℕ → ℕ → ℕ)
    (ingest : Time → ℤ → Bytes → S → Option E × S) where
  fanned_out-none :
      (l : ℤ) (sinks : List (Sink M))
      → any_enabled level sink_enabled encode grown ingest l sinks ≡ false
      → fanned_out level sink_enabled encode grown ingest l sinks ≡ []
  unfolding any_enabled fanned_out
  fanned_out-none l [] h = refl
  fanned_out-none l (s ∷ sinks) h =
      let off : sink_enabled s.id l ≡ false = ground (arith, h) in
      rw off (fanned_out-none l sinks (ground (arith, h)))

  -- A handler that answers to Enabled that a level is not enabled does nothing with a record of
  -- this level: no handler gets it, nothing is given to the ingester, and there is no error.
  pub handle-disabled :
      (choice : ℕ → Option ℕ) (i : ℕ) (r : LogRecord A) (hs : List (Handler M)) (st : S)
      (h : Handler M)
      → lookup i hs ≡ some h
      → enabled level sink_enabled encode grown ingest r.level h ≡ false
      → handle level sink_enabled encode grown ingest choice i r hs st ≡ some ([], none, st, hs)
  unfolding handle handle_by enabled
  handle-disabled choice i r hs st h found off =
      let self : enabled_self level r.level ≡ false = ground (arith, off) in
      let others = fanned_out-none r.level h.handlers (ground (arith, off)) in
      ap (handle_by level sink_enabled encode grown ingest choice i r hs st) found
      ∙ rw (self, others) refl
