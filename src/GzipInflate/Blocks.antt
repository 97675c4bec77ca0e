-- ===== src/GzipInflate/Blocks.antt =====
-- What the loop of `consume` hands on of what zlib owes for the input.
use atscppapi.Common.{
  ℕ, suc, ◌+◌, ◌<◌, Bytes, ◌≡◌, refl, sym, ap, ◌∙◌, Bool, true, false, ◌++◌, ◌==◌, [], ◌∷◌, arith,
  length, append_assoc, append-nil, length-append, ◌⊎◌, inl, inr, if◌then◌else◌,
}
use atscppapi.Loops.{Ended, ended}
use atscppapi.Zlib.{ZlibApi, ZStatus, z_ok, z_stream_end, z_error, z_sync_flush, ZCall}
use atscppapi.Transformation.Tally.{output_of, output_of-append}
use atscppapi.Transformation.{produces}
use atscppapi.GzipInflate.{
  Inflate, called, produce_block, after_inflate, inflate_block, inflate_loop, is_not_end,
}

-- Documented behaviour of inflate, for the bytes that it owes for its input: what it puts out and
-- what it then still owes are what it owed before, unless it fails; a call that answers Z_OK made
-- progress, it read some of its input or gave some output; after Z_STREAM_END nothing is owed.
pub record Inflates (z : ZlibApi) (owed : z.Stream → Bytes → Bytes) : Type 0 where
  pub at_ok :
      (s : z.Stream) (d : Bytes) (n : ℕ)
      → (z.inflate s z_sync_flush d n).status ≡ z_ok
      → (z.inflate s z_sync_flush d n).output
          ++ owed (z.inflate s z_sync_flush d n).stream (z.inflate s z_sync_flush d n).rest
        ≡ owed s d
  pub progress :
      (s : z.Stream) (d : Bytes) (n : ℕ)
      → 0 < n
      → (z.inflate s z_sync_flush d n).status ≡ z_ok
      → length (z.inflate s z_sync_flush d n).rest
        < length d + length (z.inflate s z_sync_flush d n).output
  pub at_end :
      (s : z.Stream) (d : Bytes) (n : ℕ)
      → (z.inflate s z_sync_flush d n).status ≡ z_stream_end
      → ((z.inflate s z_sync_flush d n).output ≡ owed s d)
        × (owed (z.inflate s z_sync_flush d n).stream (z.inflate s z_sync_flush d n).rest ≡ [])

-- From one state to another, these bytes were produced and counted.
pub record Gives {z : ZlibApi} (d : Bytes) (s t : Inflate z) : Type 0 where
  pub output : output_of t.calls ≡ output_of s.calls ++ d
  pub counted : t.bytes_produced ≡ s.bytes_produced + length d

module _ {z : ZlibApi} where
  pub Gives-nil : (s : Inflate z) (c : ZCall z.Stream) → Gives [] s (called c s)
  unfolding called
  Gives-nil s c = record { output = sym (append-nil (output_of s.calls)); counted = omega arith }

  pub Gives-refl : (s : Inflate z) → Gives [] s s
  Gives-refl s = record { output = sym (append-nil (output_of s.calls)); counted = omega arith }

  pub Gives-trans :
      {d e : Bytes} {s t u : Inflate z} → Gives d s t → Gives e t u → Gives (d ++ e) s u
  Gives-trans {d} {e} {s} h k = record {
    output = k.output ∙ ap (λ o. o ++ e) h.output ∙ append_assoc (output_of s.calls) d e;
    counted = omega (arith, h.counted, k.counted, length-append {0} d e);
  }

  produce_block-Gives :
      (c : ZCall z.Stream) (s : Inflate z) → Gives c.output s (produce_block c.output (called c s))
  unfolding produce_block called output_of
  produce_block-Gives c s = record {
    output =
        output_of-append s.calls (produces c.output ∷ [])
        ∙ ap (λ o. output_of s.calls ++ o) (append-nil c.output);
    counted = refl;
  }

pub status_cases :
    (st : ZStatus) → (st ≡ z_ok) ⊎ ((st ≡ z_stream_end) ⊎ ((k : ℕ) × (st ≡ z_error k)))
status_cases z_ok = inl refl
status_cases z_stream_end = inr (inl refl)
status_cases (z_error k) = inr (inr (k, refl))

pub list_cases : (d : Bytes) → (d ≡ []) ⊎ (0 < length d)
list_cases [] = inl refl
list_cases (c ∷ d) = inr (omega arith)

pub not_zero : (n : ℕ) → 0 < n → (n == 0) ≡ false
not_zero n h = ground arith

module _ {z : ZlibApi} (owed : z.Stream → Bytes → Bytes) where
  -- How `consume` stops: with the input read or nothing owed any more, and then what was given and
  -- what is still owed make up what was owed; or after an error of inflate in some state, and then
  -- what was given and what was owed in that state do.
  pub data Stops (size : ℕ) (w g : Bytes) (t : Inflate z) : Type 0 where
    whole :
        g ++ owed t.stream t.input ≡ w
        → (t.input ≡ []) ⊎ (owed t.stream t.input ≡ [])
        → Stops size w g t
    failed :
        (u : Inflate z) (k : ℕ)
        → (z.inflate u.stream z_sync_flush u.input size).status ≡ z_error k
        → g ++ owed u.stream u.input ≡ w
        → t ≡ called (z.inflate u.stream z_sync_flush u.input size) u
        → Stops size w g t

  -- The bytes given from `s` to `t`, and how that stopped.
  abbrev pub Given : ℕ → Bytes → Inflate z → Inflate z → Type 0
  Given size w s t = (g : Bytes) × (Gives g s t × Stops size w g t)

  abbrev pub owes : Inflate z → Bytes
  owes s = owed s.stream s.input

  unfoldable pub call_of : ℕ → Inflate z → ZCall z.Stream
  call_of size s = z.inflate s.stream z_sync_flush s.input size

  unfoldable pub after_call : ℕ → Inflate z → Inflate z
  unfolding call_of
  after_call size s = produce_block (call_of size s).output (called (call_of size s) s)

  -- What the loop does with the result of a block.
  abbrev pub looped :
      ℕ → ℕ → Inflate z → ZStatus → Bool → ZStatus × (Bool × Inflate z) → Ended (Inflate z)
  looped fuel size s err no_input (err', (goes_on, s')) =
      if no_input
      then ended s
      else if is_not_end err
      then if goes_on then inflate_loop fuel size err' s' else ended s'
      else ended s

  pub inflate_loop-nil :
      (fuel size : ℕ) (err : ZStatus) (s : Inflate z)
      → (length s.input == 0) ≡ true
      → inflate_loop (suc fuel) size err s ≡ ended s
  unfolding inflate_loop
  inflate_loop-nil fuel size err s e = ap (λ b. looped fuel size s err b (inflate_block size s)) e

  pub inflate_loop-end :
      (fuel size : ℕ) (s : Inflate z) → inflate_loop (suc fuel) size z_stream_end s ≡ ended s
  unfolding inflate_loop is_not_end
  inflate_loop-end fuel size s =
      elim (length s.input == 0) as (λ b. (if b then ended s else ended s) ≡ ended s) [
        | true ↦ refl
        | false ↦ refl
      ]

  -- A block after which the loop goes on, or returns.
  pub inflate_loop-block :
      (fuel size : ℕ) (s : Inflate z)
      → (length s.input == 0) ≡ false
      → inflate_loop (suc fuel) size z_ok s ≡ looped fuel size s z_ok false (inflate_block size s)
  unfolding inflate_loop
  inflate_loop-block fuel size s e = ap (λ b. looped fuel size s z_ok b (inflate_block size s)) e

  pub inflate_block-ok :
      (size : ℕ) (s : Inflate z)
      → (call_of size s).status ≡ z_ok
      → inflate_block size s ≡ (z_ok, (true, after_call size s))
  unfolding inflate_block after_call call_of after_inflate
  inflate_block-ok size s e =
      ap (λ st. (st, after_inflate st (z.inflate s.stream z_sync_flush s.input size) s)) e

  pub inflate_block-end :
      (size : ℕ) (s : Inflate z)
      → (call_of size s).status ≡ z_stream_end
      → inflate_block size s ≡ (z_stream_end, (true, after_call size s))
  unfolding inflate_block after_call call_of after_inflate
  inflate_block-end size s e =
      ap (λ st. (st, after_inflate st (z.inflate s.stream z_sync_flush s.input size) s)) e

  pub inflate_block-error :
      (size k : ℕ) (s : Inflate z)
      → (call_of size s).status ≡ z_error k
      → inflate_block size s ≡ (z_error k, (false, called (call_of size s) s))
  unfolding inflate_block call_of after_inflate
  inflate_block-error size k s e =
      ap (λ st. (st, after_inflate st (z.inflate s.stream z_sync_flush s.input size) s)) e

  pub after_call-Gives :
      (size : ℕ) (s : Inflate z) → Gives (call_of size s).output s (after_call size s)
  unfolding after_call
  after_call-Gives size s = produce_block-Gives (call_of size s) s

  pub Stops-append :
      (size : ℕ) (w v d g : Bytes) (t : Inflate z)
      → d ++ v ≡ w
      → Stops size v g t
      → Stops size w (d ++ g) t
  Stops-append size w v d g t e (whole h m) =
      whole (append_assoc d g (owes t) ∙ ap (λ x. d ++ x) h ∙ e) m
  Stops-append size w v d g t e (failed u k st h m) =
      failed u k st (append_assoc d g (owes u) ∙ ap (λ x. d ++ x) h ∙ e) m
