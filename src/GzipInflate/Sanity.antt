-- ===== src/GzipInflate/Sanity.antt =====
-- The comparison in `handleInputComplete` of the bytes produced with those written.
use atscppapi.Common.{
  ℕ, zero, suc, ◌*◌, Bytes, ◌≡◌, refl, sym, ap, ◌∙◌, Bool, true, false, ◌++◌, ◌==◌, List, [], ◌∷◌,
  arith, length, length-append, append-nil, if◌then◌else◌,
}
use atscppapi.Loops.{Ended, ended, last}
use atscppapi.Zlib.{ZlibApi, ZStatus, z_ok, z_stream_end, z_error, ZCall}
use atscppapi.Transformation
use atscppapi.Transformation.{TransformApi, ClientCall, produces, client_calls, set_output_complete}
use atscppapi.Transformation.Tally.{
  output_of, output_of-append, TakesAll, output_of-set_output_complete,
}
use atscppapi.GzipInflate.{
  Inflate, new_inflate, called, produce_block, after_inflate, inflate_block, inflate_loop, consume,
  is_not_end, inflate_scale_factor,
}

module _ {z : ZlibApi} where
  -- The state after these calls of `consume`.
  unfoldable pub consumes : ℕ → List Bytes → Inflate z → Inflate z
  unfolding consume
  consumes fuel [] s = s
  consumes fuel (d ∷ ds) s = consumes fuel ds (last (consume fuel d s))

  abbrev IsTally : Inflate z → Type 0
  IsTally s = s.bytes_produced ≡ length (output_of s.calls)

  produce_block-IsTally : (d : Bytes) (s : Inflate z) → IsTally s → IsTally (produce_block d s)
  unfolding produce_block output_of
  produce_block-IsTally d s h = omega (
    arith,
    h,
    ap length (output_of-append s.calls (produces d ∷ [])),
    length-append {0} (output_of s.calls) (d ++ []),
    ap length (append-nil d),
  )

  after_inflate-IsTally :
      (st : ZStatus) (c : ZCall z.Stream) (s : Inflate z)
      → IsTally s
      → IsTally (after_inflate st c s).1
  unfolding after_inflate called
  after_inflate-IsTally z_ok c s h =
      produce_block-IsTally c.output (record s { stream = c.stream; input = c.rest }) h
  after_inflate-IsTally z_stream_end c s h =
      produce_block-IsTally c.output (record s { stream = c.stream; input = c.rest }) h
  after_inflate-IsTally (z_error k) c s h = h

  inflate_block-IsTally :
      (size : ℕ) (s : Inflate z) → IsTally s → IsTally (inflate_block size s).1.1
  unfolding inflate_block
  inflate_block-IsTally size s h = after_inflate-IsTally _ _ s h

  either :
      (b : Bool) (r q : Ended (Inflate z))
      → IsTally (last r)
      → IsTally (last q)
      → IsTally (last (if b then r else q))
  either true r q h k = h
  either false r q h k = k

  inflate_loop-IsTally :
      (fuel size : ℕ) (err : ZStatus) (s : Inflate z)
      → IsTally s
      → IsTally (last (inflate_loop fuel size err s))
  unfolding inflate_loop last
  inflate_loop-IsTally zero size err s h = h
  inflate_loop-IsTally (suc fuel) size err s h =
      let block = inflate_block size s in
      let moved = inflate_block-IsTally size s h in
      let rest = inflate_loop fuel size block.0 block.1.1 in
      let inner = if block.1.0 then rest else ended block.1.1 in
      either (length s.input == 0) (ended s) (if is_not_end err then inner else ended s) h (
        either (is_not_end err) inner (ended s)
          (either block.1.0 rest (ended block.1.1)
            (inflate_loop-IsTally fuel size block.0 block.1.1 moved) moved)
          h)

  consume-IsTally :
      (fuel : ℕ) (d : Bytes) (s : Inflate z) → IsTally s → IsTally (last (consume fuel d s))
  unfolding consume last
  consume-IsTally fuel d s h =
      let r = inflate_loop fuel (inflate_scale_factor * length d) z_ok (record s { input = d }) in
      either (length d == 0) (ended s) (if s.z_stream_initialized then r else ended s) h (
        either s.z_stream_initialized r (ended s)
          (inflate_loop-IsTally fuel (inflate_scale_factor * length d) z_ok (record s { input = d })
            h)
          h)

  consumes-IsTally :
      (fuel : ℕ) (ds : List Bytes) (s : Inflate z) → IsTally s → IsTally (consumes fuel ds s)
  unfolding consumes
  consumes-IsTally fuel [] s h = h
  consumes-IsTally fuel (d ∷ ds) s h =
      consumes-IsTally fuel ds (last (consume fuel d s)) (consume-IsTally fuel d s h)

new_inflate-IsTally : (z : ZlibApi) → IsTally (new_inflate {z = z})
unfolding new_inflate output_of
new_inflate-IsTally z = refl

-- Whatever zlib does and the input is, on a connection that takes everything `setOutputComplete`
-- returns the plugin's count of the bytes produced, so that the comparison never fails.
pub bytes_produced-consumes :
    (z : ZlibApi) (ts : TransformApi)
    → TakesAll ts
    → (fuel : ℕ) (ds : List Bytes) (w : ts.World)
    → let s = consumes fuel ds (new_inflate {z = z}) in
      (set_output_complete ts (client_calls ts s.calls (Transformation.new ts w))).0
      ≡ s.bytes_produced
bytes_produced-consumes z ts l fuel ds w =
    let s = consumes fuel ds (new_inflate {z = z}) in
    output_of-set_output_complete ts l s.calls w
    ∙ sym (consumes-IsTally fuel ds (new_inflate {z = z}) (new_inflate-IsTally z))
