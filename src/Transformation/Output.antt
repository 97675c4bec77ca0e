-- ===== src/Transformation/Output.antt =====
-- The output side: what `produce` and `setOutputComplete` promise.
use atscppapi.Common.{◌∙◌, ap, false, true, ℕ, ◌+◌, Bytes, ◌≡◌, List, [], ◌∷◌, arith}
use atscppapi.Transformation.{
  new, TransformApi, Transformation, ClientCall, produces, sets_output_complete, open_output,
  write_data, produce, set_output_complete, client_call, client_calls,
}

module _ (ts : TransformApi) where
  -- The bytes that the calls of `produce` among these reported as written.
  unfoldable pub reported : List ClientCall → Transformation ts → ℕ
  unfolding client_call
  reported [] s = 0
  reported (produces d ∷ cs) s = (produce ts d s).0 + reported cs (client_call ts (produces d) s)
  reported (sets_output_complete ∷ cs) s = reported cs (client_call ts sets_output_complete s)

  produced :
      (d : Bytes) (s : Transformation ts)
      → (produce ts d s).1.bytes_written ≡ s.bytes_written + (produce ts d s).0
  unfolding produce open_output write_data
  produced d s = ground arith

  completed : (s : Transformation ts) → (set_output_complete ts s).1.bytes_written ≡ s.bytes_written
  unfolding set_output_complete
  completed s = ground arith

  -- Whatever the plugin calls, the counter grows by exactly the bytes that `produce` reported.
  bytes_written-client_calls :
      (cs : List ClientCall) (s : Transformation ts)
      → (client_calls ts cs s).bytes_written ≡ s.bytes_written + reported cs s
  unfolding client_calls client_call reported
  bytes_written-client_calls [] s = omega arith
  bytes_written-client_calls (produces d ∷ cs) s =
      omega (arith, produced d s, bytes_written-client_calls cs (produce ts d s).1)
  bytes_written-client_calls (sets_output_complete ∷ cs) s =
      omega (arith, completed s, bytes_written-client_calls cs (set_output_complete ts s).1)

  -- On an open connection with an open output, the bytes counted are announced.
  announced :
      (s : Transformation ts)
      → s.output_vio ≡ true
      → ts.conn_closed s.world ≡ false
      → set_output_complete ts s ≡ (
        s.bytes_written,
        record s { world = ts.output_reenable (ts.output_nbytes_set s.world s.bytes_written) },
      )
  unfolding set_output_complete
  announced s opened live = grind arith

  counted :
      (cs : List ClientCall) (w : ts.World)
      → (client_calls ts cs (new ts w)).bytes_written ≡ reported cs (new ts w)
  unfolding new
  counted cs w = omega (arith, bytes_written-client_calls cs (new ts w))

  -- When a plugin that has opened its output completes it on an open connection, the size that is
  -- announced to Traffic Server, and returned, is the sum of what its calls of `produce` reported.
  announced_size :
      (cs : List ClientCall) (w : ts.World)
      → (client_calls ts cs (new ts w)).output_vio ≡ true
      → ts.conn_closed (client_calls ts cs (new ts w)).world ≡ false
      → let s = client_calls ts cs (new ts w) in
        ((set_output_complete ts s).0 ≡ reported cs (new ts w))
        × ((set_output_complete ts s).1.world
            ≡ ts.output_reenable (ts.output_nbytes_set s.world (reported cs (new ts w))))
  announced_size cs w opened live =
      let s = client_calls ts cs (new ts w) in
      let done = announced s opened live in
      let total = counted cs w in
      (
        ap (λ r. r.0) done ∙ total,
        ap (λ r. r.1.world) done
            ∙ ap (λ n. ts.output_reenable (ts.output_nbytes_set s.world n)) total,
      )
