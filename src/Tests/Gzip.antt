-- ===== src/Tests/Gzip.antt =====
-- The inflating transformation over a coder that copies its input.
use atscppapi.Common.{
  ℕ, ◌<◌, ◌≤◌, ◌⊎◌, Bytes, codes, ◌≡◌, refl, ap, ◌∙◌, ◌++◌, ◌==◌, List, [], ◌∷◌, inl, inr, length,
  take, drop, arith, ltb, if◌then◌else◌, append-nil, take-append-drop, length-take, take-eq_of_le,
}
use atscppapi.Loops.{Ended, ended, out_of_fuel, Returns}
use atscppapi.Zlib.{
  ZlibApi, ZStatus, z_ok, z_stream_end, z_error, ZFlush, z_sync_flush, z_finish, ZCall,
}
use atscppapi.Transformation
use atscppapi.Transformation.{ClientCall, produces, sets_output_complete}
use atscppapi.Transformation.Tally.{TakesAll}
use atscppapi.GzipInflate.{Inflate, new_inflate}
use atscppapi.GzipInflate
use atscppapi.GzipInflate.Blocks.{Inflates, Given}
use atscppapi.GzipInflate.Returned.{consume-Given}
use atscppapi.GzipInflate.Sanity.{consumes, bytes_produced-consumes}
use atscppapi.Tests.Streams.{memory}

-- The status of a call, for what it has to give and the room.
coded : ZFlush → ℕ → ℕ → ZStatus
coded z_sync_flush owed room = if owed == 0 then z_error 5 else z_ok
coded z_finish owed room = if ltb room owed then z_ok else z_stream_end

-- The stream holds what is still to be given.
unfoldable copied : ZStatus → Bytes → ℕ → ZCall Bytes
copied st d n = record { status = st; rest = []; output = take n d; stream = drop n d }

abbrev copy : ZlibApi
copy = record {
  Stream = Bytes;
  deflate_init = (z_ok, []);
  inflate_init = (z_ok, []);
  deflate = λ s f d n. copied (coded f (length (s ++ d)) n) (s ++ d) n;
  inflate = λ s f d n. copied (coded z_sync_flush (length (s ++ d)) n) (s ++ d) n;
}

le_or_lt : (m n : ℕ) → (m ≤ n) ⊎ (n < m)
le_or_lt m n = ground arith

never_end : (n : ℕ) → ¬ ((if n == 0 then z_error 5 else z_ok) ≡ z_stream_end)
never_end n e = ground arith

first_of : (d : Bytes) (n : ℕ) → 0 < n → 0 < length d → 0 < length (take n d)
first_of d n h k = elim (le_or_lt n (length d)) [
  | inl le ↦ omega (arith, length-take n d le)
  | inr lt ↦ omega (arith, ap length (take-eq_of_le n d (omega arith)))
]

not_ok : (n : ℕ) → (if n == 0 then z_error 5 else z_ok) ≡ z_ok → 0 < n
not_ok n e = ground arith

copy-Inflates : Inflates copy (λ s d. s ++ d)
unfolding copied coded
copy-Inflates = record {
  at_ok = λ s d n e.
      ap (λ x. take n (s ++ d) ++ x) (append-nil (drop n (s ++ d))) ∙ take-append-drop n (s ++ d);
  progress = λ s d n h e. omega (arith, first_of (s ++ d) n h (not_ok (length (s ++ d)) e));
  at_end = λ s d n e. absurd (never_end (length (s ++ d)) e);
}

abbrev hello : Bytes
hello = codes "hello"

abbrev fresh : Inflate copy
fresh = new_inflate {z = copy}

consume-Given_example :
    Returns (GzipInflate.consume 11 hello fresh) (Given (λ s d. s ++ d) 30 hello fresh)
unfolding new_inflate
consume-Given_example =
    consume-Given (λ s d. s ++ d) copy-Inflates 11 hello fresh refl (omega arith) (omega arith)

memory-TakesAll : TakesAll memory
memory-TakesAll = record {
  alive = λ w. refl;
  connected = λ w. refl;
  accepted = λ w n. refl;
  taken = λ w d. refl;
}

abbrev chunks : List Bytes
chunks = hello ∷ codes " " ∷ hello ∷ []

bytes_produced-consumes_example :
    (Transformation.set_output_complete memory (
      Transformation.client_calls memory
        (consumes 11 chunks fresh).calls
        (Transformation.new memory ([], [])))).0
    ≡ (consumes 11 chunks fresh).bytes_produced
bytes_produced-consumes_example =
    bytes_produced-consumes copy memory memory-TakesAll 11 chunks ([], [])

-- Six bytes are produced of the two chunks.
two_chunks : (consumes 11 (hello ∷ codes " " ∷ []) fresh).bytes_produced ≡ 6
unfolding consumes new_inflate copied coded atscppapi.Loops.last GzipInflate.inflate_loop
    GzipInflate.inflate_block
two_chunks = refl
