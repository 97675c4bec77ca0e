-- ===== src/Transformation/Lost.antt =====
-- A read that an `int` cannot count.
use atscppapi.Common.{
  ℕ, ◌+◌, ◌≤◌, ◌<◌, ◌%◌, Bytes, ◌≡◌, ap, ◌∙◌, false, ◌++◌, some, List, [], arith, length, ltb, drop,
  if◌then◌else◌,
}
use atscppapi.Transformation.{
  TransformApi, Transformation, Client, call_consume, read_input, consume_from_reader,
}
use atscppapi.Transformation.Stream.{ReadsInput}

-- The low 32 bits of such a number are a negative `int`.
negative : (n : ℕ) → 2147483648 ≤ n → n < 4294967296 → ltb (n % 4294967296) 2147483648 ≡ false
negative n many fits = ground arith

nothing_read :
    (n : ℕ) (blocks : List Bytes)
    → 2147483648 ≤ n
    → n < 4294967296
    → consume_from_reader (some n) blocks ≡ []
unfolding consume_from_reader
nothing_read n blocks many fits = ground (arith, negative n many fits)

module _ (ts : TransformApi) (client : Client) (pending arrived : ts.World → Bytes)
    (r : ReadsInput ts pending arrived) where
  -- When the buffers behave as documented, and from 2 ^ 31 to 2 ^ 32 - 1 bytes of the input, which has
  -- as many, are read at once, they are taken off the input, and no method of the plugin is called:
  -- they are lost.
  pub lost-read_input :
      (n : ℕ) (s : Transformation ts)
      → n ≤ length (pending s.world)
      → 2147483648 ≤ n
      → n < 4294967296
      → ((read_input ts client n s).callbacks ≡ s.callbacks)
        × ((added : Bytes) × (pending (read_input ts client n s).world
              ≡ drop n (pending s.world) ++ added))
  unfolding read_input
  lost-read_input n s le many fits =
      let w = ts.input_consume s.world n in
      let read = record s { world = ts.input_ndone_set w (ts.input_ndone w + n) } in
      let in_data = consume_from_reader (ts.copied_avail s.world n) (ts.copied_blocks s.world n) in
      let empty =
        ap (λ a. consume_from_reader a (ts.copied_blocks s.world n)) (r.copied s.world n le)
        ∙ nothing_read n (ts.copied_blocks s.world n) many fits in
      let same = ap (λ d. if ltb 0 (length d) then call_consume ts client d read else read) empty in
      let done = r.at_input_ndone w (ts.input_ndone w + n) in
      (
        ap (λ t. t.callbacks) same,
        (
          done.added,
          ap (λ t. pending t.world) same
              ∙ done.pending_added
              ∙ ap (λ d. d ++ done.added) (r.pending-consume s.world n),
        ),
      )
