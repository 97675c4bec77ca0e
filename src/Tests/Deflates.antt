-- ===== src/Tests/Deflates.antt =====
-- The deflating transformation over a coder that copies its input.
use atscppapi.Common.{
  ℕ, ◌≤◌, ◌<◌, ◌⊎◌, Bytes, codes, ◌≡◌, refl, sym, ap, ◌∙◌, true, ◌++◌, List, [], ◌∷◌, inl, inr,
  length, take, drop, arith, ltb, if◌then◌else◌, append-nil, append_assoc, take-append-drop,
  length-take, length-drop, take-eq_of_le,
}
use atscppapi.Loops.{Returns}
use atscppapi.Zlib.{ZlibApi, z_ok, z_stream_end, ZFlush, z_sync_flush, z_finish, ZCall}
use atscppapi.Transformation.{ClientCall, produces, sets_output_complete}
use atscppapi.Transformation.Tally.{output_of}
use atscppapi.GzipDeflate.{Deflate}
use atscppapi.GzipDeflate
use atscppapi.GzipDeflate.Laws.{Coder}
use atscppapi.GzipDeflate.Chunks.{Coded, consume-Coded, new-Coded}
use atscppapi.GzipDeflate.Finish.{Complete, handle_input_complete-Complete}

-- The stream has what it gave and what it still holds.
unfoldable kept : ZFlush → Bytes → Bytes → ℕ → ZCall (Bytes × Bytes)
kept f given held n = record {
  status = elim f [
    | z_sync_flush ↦ z_ok
    | z_finish ↦ if ltb n (length held) then z_ok else z_stream_end
  ];
  rest = [];
  output = take n held;
  stream = (given ++ take n held, drop n held);
}

abbrev keeping : ZlibApi
keeping = record {
  Stream = Bytes × Bytes;
  deflate_init = (z_ok, ([], []));
  inflate_init = (z_ok, ([], []));
  deflate = λ s f d n. kept f s.0 (s.1 ++ d) n;
  inflate = λ s f d n. kept f s.0 (s.1 ++ d) n;
}

le_or_lt : (m n : ℕ) → (m ≤ n) ⊎ (n < m)
le_or_lt m n = ground arith

take_in_room : (n : ℕ) (d : Bytes) → length (take n d) ≤ n
take_in_room n d = elim (le_or_lt n (length d)) [
  | inl le ↦ omega (arith, length-take n d le)
  | inr lt ↦ omega (arith, ap length (take-eq_of_le n d (omega arith)))
]

take_full : (n : ℕ) (d : Bytes) → length (take n d) ≡ n → n ≤ length d
take_full n d e = elim (le_or_lt n (length d)) [
  | inl le ↦ le
  | inr lt ↦ omega (arith, e, ap length (take-eq_of_le n d (omega arith)))
]

take_room : (n : ℕ) (d : Bytes) → length (take n d) < n → take n d ≡ d
take_room n d h = elim (le_or_lt n (length d)) [
  | inl le ↦ absurd (omega (arith, length-take n d le))
  | inr lt ↦ take-eq_of_le n d (omega arith)
]

all_given :
    (g : Bytes) (n : ℕ) (d : Bytes) → take n d ≡ d → g ++ take n d ≡ (g ++ take n d) ++ drop n d
all_given g n d e =
    ap (λ x. g ++ x) (e ∙ sym (take-append-drop n d)) ∙ sym (append_assoc g (take n d) (drop n d))

shorter : (n : ℕ) (d : Bytes) → 6 < n → n ≤ length d → length (drop n d ++ []) < length d
shorter n d h le = rw (append-nil (drop n d)) (omega (arith, length-drop n d le))

finish_held :
    (g d : Bytes) (n : ℕ)
    → 6 < n
    → (((kept z_finish g d n).status ≡ z_ok)
        × Unit {0}
        × (length ((kept z_finish g d n).stream.1 ++ []) < length d))
      ⊎ (((kept z_finish g d n).status ≡ z_stream_end)
          × ((kept z_finish g d n).stream.0
              ≡ (kept z_finish g d n).stream.0 ++ (kept z_finish g d n).stream.1))
unfolding kept
finish_held g d n h = elim (le_or_lt (length d) n) [
  | inl le ↦ inr (ground arith, all_given g n d (take-eq_of_le n d le))
  | inr lt ↦ inl (ground arith, tt, shorter n d h (omega arith))
]

unfoldable keeping_coder : Coder keeping
unfolding kept
keeping_coder = record {
  given = λ s. s.0;
  taken = λ s. s.0 ++ s.1;
  decoded = λ d. d;
  left = λ s f d. length (s.1 ++ d);
  IsOpen = λ f s. Unit;
  IsFull = λ s. Unit;
  init_open = λ e. tt;
  init_given = λ e. refl;
  init_taken = λ e. refl;
  decoded_nil = refl;
  given_added = λ f s d n o. refl;
  taken_added = λ f s d n o.
      append-nil ((s.0 ++ take n (s.1 ++ d)) ++ drop n (s.1 ++ d))
      ∙ append_assoc s.0 (take n (s.1 ++ d)) (drop n (s.1 ++ d))
      ∙ ap (λ x. s.0 ++ x) (take-append-drop n (s.1 ++ d))
      ∙ sym (append_assoc s.0 s.1 d);
  in_room = λ f s d n o. take_in_room n (s.1 ++ d);
  flush_ok = λ s d n o h m. (refl, tt);
  flush_full = λ s d n o h e full. (tt, shorter n (s.1 ++ d) h (take_full n (s.1 ++ d) full));
  flush_done = λ s d n o e room. (refl, all_given s.0 n (s.1 ++ d) (take_room n (s.1 ++ d) room));
  finish_open = λ s o. tt;
  finish_call = λ s n o h. finish_held s.0 (s.1 ++ []) n h;
  finish_rest = λ s n o. refl;
}

abbrev hello : Bytes
hello = codes "hello"

abbrev ready : Deflate keeping
ready = GzipDeflate.new {z = keeping}

consume-Coded_example :
    Returns (GzipDeflate.consume 6 hello ready) (Coded keeping_coder ([] ++ hello))
unfolding GzipDeflate.new keeping_coder
consume-Coded_example =
    consume-Coded keeping_coder 6 [] hello ready (new-Coded keeping_coder refl) (omega arith)

-- The plugin has handed `hello` on.
abbrev sent : Deflate keeping
sent = record {
  stream = (hello, []);
  input = [];
  z_stream_initialized = true;
  bytes_produced = 5;
  calls = produces hello ∷ [];
}

sent-Coded : Coded keeping_coder hello sent
unfolding keeping_coder output_of
sent-Coded = record {
  initialized = refl;
  input_taken = refl;
  is_open = tt;
  hands = record { output = refl; counted = refl };
  took = refl;
  decodes = refl;
}

handle_input_complete-Complete_example : Returns (GzipDeflate.handle_input_complete 6 sent) (λ t.
    Complete keeping_coder hello t
    × ((cs : List ClientCall) × (t.calls ≡ cs ++ sets_output_complete ∷ [])))
unfolding keeping_coder
handle_input_complete-Complete_example =
    handle_input_complete-Complete keeping_coder 6 hello sent sent-Coded (omega arith)
