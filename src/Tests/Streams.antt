-- ===== src/Tests/Streams.antt =====
-- src/cli_utf8_stream.c and src/cli_render_sanitize.c on concrete bytes.
use oi_c.Prelude.{
  ℕ, ◌+◌, ◌≤◌, ◌≡◌, ◌≢◌, inl, refl, Bool, true, [], ◌∷◌, ◌++◌, take, All, Bytes, arith,
}
use oi_c.Status.{ok}
use oi_c.Utf8.{sequence_length, lead_length, is_continuation}
use oi_c.Utf8.Encode.{emit_utf8, emit_all}
use oi_c.Utf8.Text.{IsText}
use oi_c.Bytebuf.{Bytebuf, append, enlarge, grow}
use oi_c.Pump
use oi_c.Pump.{One, Machine, Fed, round, feed_loop, put, plain_run, transduce}
use oi_c.Pump.Refine.{feed-transduce, transduce-append}
use oi_c.Utf8Stream
use oi_c.Utf8Stream.{Utf8Stream, utf8_machine, replacement, feed_one, feed_lead, feed_tail, flushed}
use oi_c.Utf8Stream.Laws.{utf8-Lawful}
use oi_c.Utf8Stream.Text.{feed-IsText, finish-IsText}
use oi_c.Utf8Stream.Identity.{feed_identity}
use oi_c.Sanitize
use oi_c.Sanitize.{
  Phase, normal, csi, saw_c2, Sanitizer, cleared, max_sequence, sanitize_machine, feed_in,
  is_plain_passthrough, check_cap, is_string_introducer,
}
use oi_c.Sanitize.Safe.{IsPrintable, feed-IsPrintable}
use oi_c.Sanitize.Bound.{transduce_resumes}
use oi_c.Sanitize.Controls.{C2Before, feed-C2Before}

abbrev all_granted : ℕ → Bool
all_granted n = true

abbrev empty : Bytebuf
empty = record { contents = []; cap = 0 }

abbrev fresh : Utf8Stream
fresh = record { pending = []; expected_len = 0 }

-- One euro sign, cut by the end of the input.
abbrev cut : Bytes
cut = 65 ∷ 226 ∷ 130 ∷ []

abbrev colored : Bytes
colored = 27 ∷ 91 ∷ 49 ∷ 109 ∷ 65 ∷ 194 ∷ 169 ∷ []

abbrev euro : Bytes
euro = 226 ∷ 130 ∷ 172 ∷ []

euro-IsText : IsText euro
unfolding emit_utf8 emit_all
euro-IsText = (8364 ∷ [], (inl (omega arith), tt), refl)

abbrev cut_fed : Fed Utf8Stream
cut_fed = record {
  status = ok;
  state = record { pending = 226 ∷ 130 ∷ []; expected_len = 3 };
  out = record { contents = 65 ∷ []; cap = 128 };
}

feed-transduce_example :
    (cut_fed.state ≡ (transduce utf8_machine fresh cut).0)
    × (cut_fed.out.contents ≡ [] ++ (transduce utf8_machine fresh cut).1)
unfolding Pump.feed feed_loop round plain_run put append enlarge grow feed_one feed_lead feed_tail
    lead_length sequence_length is_continuation
feed-transduce_example =
    feed-transduce utf8_machine utf8-Lawful all_granted fresh cut empty cut_fed refl refl

transduce-append_example : transduce utf8_machine fresh (cut ++ (172 ∷ [])) ≡ (
  (transduce utf8_machine (transduce utf8_machine fresh cut).0 (172 ∷ [])).0,
  (transduce utf8_machine fresh cut).1
      ++ (transduce utf8_machine (transduce utf8_machine fresh cut).0 (172 ∷ [])).1,
)
transduce-append_example = transduce-append utf8_machine utf8-Lawful fresh cut (172 ∷ [])

feed-IsText_example : IsText (65 ∷ [])
unfolding Utf8Stream.feed Pump.feed feed_loop round plain_run put append enlarge grow feed_one
    feed_lead feed_tail lead_length sequence_length is_continuation emit_all
feed-IsText_example = feed-IsText all_granted fresh cut empty cut_fed refl ([], tt, refl)

finish-IsText_example : IsText (Utf8Stream.finish all_granted cut_fed.state empty).out.contents
unfolding emit_all
finish-IsText_example = finish-IsText all_granted cut_fed.state empty ([], tt, refl)

abbrev euro_fed : Fed Utf8Stream
euro_fed = record {
  status = ok;
  state = record { pending = []; expected_len = 3 };
  out = record { contents = euro; cap = 128 };
}

feed_identity_example : (euro ≡ [] ++ euro) × (euro_fed.state.pending ≡ [])
unfolding Utf8Stream.feed Pump.feed feed_loop round plain_run put append enlarge grow feed_one
    feed_lead feed_tail lead_length sequence_length is_continuation flushed
feed_identity_example =
    feed_identity all_granted fresh euro empty euro_fed refl euro-IsText refl refl

abbrev colored_fed : Fed Sanitizer
colored_fed = record {
  status = ok;
  state = cleared;
  out = record { contents = 65 ∷ 194 ∷ 169 ∷ []; cap = 128 };
}

feed-IsPrintable_example : All IsPrintable (65 ∷ 194 ∷ 169 ∷ [])
unfolding Sanitize.feed Pump.feed feed_loop round plain_run put append enlarge grow feed_in
    is_plain_passthrough check_cap is_string_introducer
feed-IsPrintable_example = feed-IsPrintable all_granted cleared colored empty colored_fed refl tt

colored-IsText : IsText colored
unfolding emit_utf8 emit_all
colored-IsText = (27 ∷ 91 ∷ 49 ∷ 109 ∷ 65 ∷ 169 ∷ [], ground arith, refl)

normal-saw_c2 : normal ≢ saw_c2
normal-saw_c2 h = ground arith

feed-C2Before_example : (e : Bytes) × (65 ∷ 194 ∷ 169 ∷ [] ≡ [] ++ e) × C2Before 0xa0 0xc0 e
unfolding Sanitize.feed Pump.feed feed_loop round plain_run put append enlarge grow feed_in
    is_plain_passthrough check_cap is_string_introducer
feed-C2Before_example =
    feed-C2Before all_granted cleared colored empty colored_fed colored-IsText normal-saw_c2 refl
      refl

transduce_resumes_example :
    (k : ℕ) × (4094 + k ≤ max_sequence)
    × (transduce sanitize_machine
          (record { phase = csi; sequence_bytes = 4094 })
          (take k (49 ∷ 50 ∷ []))
        ≡ (cleared, []))
transduce_resumes_example =
    transduce_resumes (49 ∷ 50 ∷ []) (record { phase = csi; sequence_bytes = 4094 }) tt
      (omega arith) (omega arith)
