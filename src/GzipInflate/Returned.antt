-- ===== src/GzipInflate/Returned.antt =====
-- That `consume` returns, and what it has then handed on.
use atscppapi.Common.{
  ℕ, zero, suc, ◌+◌, ◌*◌, ◌<◌, Bytes, ◌≡◌, refl, sym, ap, ◌∙◌, true, false, ◌++◌, ◌==◌, [], arith,
  length, append-nil, length-append, ◌⊎◌, inl, inr, subst,
}
use atscppapi.Loops.{Ended, Returns, Returns_map}
use atscppapi.Zlib.{ZlibApi, z_ok, z_stream_end, z_error, z_sync_flush}
use atscppapi.GzipInflate.Blocks.{
  Inflates, Gives-nil, Gives-refl, Gives-trans, whole, failed, Given, owes, call_of, after_call,
  looped, inflate_loop-nil, inflate_loop-end, inflate_loop-block, inflate_block-ok,
  inflate_block-end, inflate_block-error, after_call-Gives, status_cases, list_cases, not_zero,
  Stops-append,
}
use atscppapi.GzipInflate.{Inflate, called, produce_block, inflate_loop, consume, is_not_end}

module _ {z : ZlibApi} (owed : z.Stream → Bytes → Bytes) (l : Inflates z owed) where
  abbrev GivenFrom : ℕ → Inflate z → Inflate z → Type 0
  GivenFrom size s = Given owed size (owed s.stream s.input) s

  after_block :
      (size : ℕ) (s : Inflate z) (r : Ended (Inflate z))
      → (call_of owed size s).output ++ owes owed (after_call owed size s) ≡ owes owed s
      → Returns r (GivenFrom size (after_call owed size s))
      → Returns r (GivenFrom size s)
  after_block size s r e h =
      Returns_map r
        (λ t k. (
          (call_of owed size s).output ++ k.0,
          (
            Gives-trans (after_call-Gives owed size s) k.1.0,
            Stops-append owed size (owes owed s) (owes owed (after_call owed size s))
                (call_of owed size s).output k.0 t e k.1.1,
          ),
        ))
        h

  stopped : (size : ℕ) (s : Inflate z) → (s.input ≡ []) ⊎ (owes owed s ≡ []) → GivenFrom size s s
  stopped size s m = ([], (Gives-refl s, whole refl m))

  at_ok_lem :
      (size : ℕ) (s : Inflate z)
      → (call_of owed size s).status ≡ z_ok
      → (call_of owed size s).output ++ owes owed (after_call owed size s) ≡ owes owed s
  unfolding call_of after_call produce_block called
  at_ok_lem size s e = l.at_ok s.stream s.input size e

  smaller :
      (fuel size : ℕ) (s : Inflate z)
      → 0 < size
      → (call_of owed size s).status ≡ z_ok
      → length s.input + length (owes owed s) < suc fuel
      → length (after_call owed size s).input + length (owes owed (after_call owed size s)) < fuel
  unfolding call_of after_call produce_block called
  smaller fuel size s pos e h =
      let c = z.inflate s.stream z_sync_flush s.input size in
      omega (
        arith,
        l.progress s.stream s.input size pos e,
        ap length (l.at_ok s.stream s.input size e),
        length-append {0} c.output (owed c.stream c.rest),
      )

  at_end_lem :
      (size : ℕ) (s : Inflate z)
      → (call_of owed size s).status ≡ z_stream_end
      → ((call_of owed size s).output ≡ owes owed s) × (owes owed (after_call owed size s) ≡ [])
  unfolding call_of after_call produce_block called
  at_end_lem size s e = l.at_end s.stream s.input size e

  -- An error: nothing of that call is handed on.
  fails :
      (size k : ℕ) (s : Inflate z)
      → (call_of owed size s).status ≡ z_error k
      → GivenFrom size s (called (call_of owed size s) s)
  unfolding call_of
  fails size k s e =
      ([], (Gives-nil s (z.inflate s.stream z_sync_flush s.input size), failed s k e refl refl))

  -- The end of the stream: one more test, and the loop ends.
  ends :
      (fuel size : ℕ) (s : Inflate z)
      → 0 < fuel
      → (call_of owed size s).status ≡ z_stream_end
      → Returns (inflate_loop fuel size z_stream_end (after_call owed size s)) (GivenFrom size s)
  ends zero size s pos e = absurd (omega arith)
  ends (suc fuel) size s pos e =
      let t = after_call owed size s in
      let at_end = at_end_lem size s e in
      let joined =
        ap (λ x. (call_of owed size s).output ++ x) at_end.1
        ∙ append-nil (call_of owed size s).output
        ∙ at_end.0 in
      after_block size s (inflate_loop (suc fuel) size z_stream_end t) joined (
        subst (λ r. Returns r (GivenFrom size t)) (sym (inflate_loop-end owed fuel size t))
          (stopped size t (inr at_end.1)))

  inflate_loop-owed :
      (fuel size : ℕ) (s : Inflate z)
      → 0 < size
      → length s.input + length (owes owed s) < fuel
      → Returns (inflate_loop fuel size z_ok s) (GivenFrom size s)
  unfolding is_not_end
  inflate_loop-owed zero size s pos h = absurd (omega arith)
  inflate_loop-owed (suc fuel) size s pos h = elim (list_cases s.input) [
    | inl none_left ↦
        subst (λ r. Returns r (GivenFrom size s))
          (sym (inflate_loop-nil owed fuel size z_ok s (ap (λ d. length d == 0) none_left)))
          (stopped size s (inl none_left))
    | inr some_left ↦
        subst (λ r. Returns r (GivenFrom size s))
          (sym (inflate_loop-block owed fuel size s (not_zero (length s.input) some_left)))
          (elim (status_cases (call_of owed size s).status) [
            | inl ok ↦
                subst (λ p. Returns (looped owed fuel size s z_ok false p) (GivenFrom size s))
                  (sym (inflate_block-ok owed size s ok))
                  (after_block size s (inflate_loop fuel size z_ok (after_call owed size s))
                    (at_ok_lem size s ok)
                    (inflate_loop-owed fuel size (after_call owed size s) pos
                      (smaller fuel size s pos ok h)))
            | inr (inl at_end) ↦
                subst (λ p. Returns (looped owed fuel size s z_ok false p) (GivenFrom size s))
                  (sym (inflate_block-end owed size s at_end))
                  (ends fuel size s (omega (arith, h, some_left)) at_end)
            | inr (inr (k, bad)) ↦
                subst (λ p. Returns (looped owed fuel size s z_ok false p) (GivenFrom size s))
                  (sym (inflate_block-error owed size k s bad)) (fails size k s bad)
          ])
  ]

  consume-loop :
      (fuel : ℕ) (d : Bytes) (s : Inflate z)
      → s.z_stream_initialized ≡ true
      → 0 < length d
      → consume fuel d s ≡ inflate_loop fuel (6 * length d) z_ok (record s { input = d })
  unfolding consume
  consume-loop fuel d s ready some_input = ground arith

  -- When the stream was initialized, and the fuel covers the input and what zlib owes for it,
  -- `consume` returns, having produced and counted some bytes. Either it stopped with the input
  -- read or with nothing owed, and those bytes with what is still owed are what was owed; or a call
  -- of inflate failed, and those bytes with what was owed before that call are, so that nothing
  -- that the failing call put out is handed on.
  pub consume-Given :
      (fuel : ℕ) (d : Bytes) (s : Inflate z)
      → s.z_stream_initialized ≡ true
      → 0 < length d
      → length d + length (owed s.stream d) < fuel
      → Returns (consume fuel d s) (Given owed (6 * length d) (owed s.stream d) s)
  consume-Given fuel d s ready some_input h =
      let r = inflate_loop-owed fuel (6 * length d) (record s { input = d }) (omega arith) h in
      subst (λ r. Returns r (Given owed (6 * length d) (owed s.stream d) s))
        (sym (consume-loop fuel d s ready some_input))
        (Returns_map (inflate_loop fuel (6 * length d) z_ok (record s { input = d }))
          (λ t k. (k.0, (record { output = k.1.0.output; counted = k.1.0.counted }, k.1.1))) r)
