-- ===== src/Transformation/Delivery.antt =====
-- The handler hands all input on.
use atscppapi.Common.{◌<◌}
use atscppapi.Common.{
  lt→ltb, append-nil, ℕ, suc, ◌+◌, ◌≤◌, Bytes, ◌≡◌, refl, sym, ap, ◌∙◌, subst, Bool, true, false,
  ◌++◌, List, [], ◌∷◌, arith, length, ltb, take, append_assoc, if◌then◌else◌, take-append-drop,
}
use atscppapi.Transformation.{
  TransformApi, Transformation, Client, consumed, input_completed, VconnEvent, vconn_write_complete,
  error_event, any_other_event, call_consume, dispatch_input_complete, read_input, after_read,
  handle_transformation_plugin_read, handle_transformation_plugin_events, new, consume_from_reader,
}
use atscppapi.Transformation.Input.{run_events}
use atscppapi.Transformation.Stream.{
  HandsAll, consume_from_reader-take, handed, Supplies, ReadsInput, client_calls-Follows, idle,
  then_after, Follows-HandsAll, either_world,
}

regroup : (a b c d : Bytes) → a ++ b ++ (c ++ d) ≡ a ++ (b ++ c) ++ d
regroup a b c d = simp append_assoc

module _ (ts : TransformApi) (client : Client) (pending arrived : ts.World → Bytes)
    (r : ReadsInput ts pending arrived) where
  pick :
      (b : Bool) {s t : Transformation ts}
      → HandsAll ts pending arrived r s
      → HandsAll ts pending arrived r t
      → HandsAll ts pending arrived r (if b then s else t)
  pick true h k = h
  pick false h k = k

  world-HandsAll :
      (s : Transformation ts) {w : ts.World}
      → HandsAll ts pending arrived r s
      → Supplies pending arrived s.world w
      → HandsAll ts pending arrived r (record s { world = w })
  world-HandsAll s h x =
      Follows-HandsAll ts pending arrived r h (record { callbacks = refl; supplied = x })

  dispatch-HandsAll :
      (s : Transformation ts)
      → HandsAll ts pending arrived r s
      → HandsAll ts pending arrived r (dispatch_input_complete ts client s)
  unfolding dispatch_input_complete handed
  dispatch-HandsAll s h =
      let called = record s { callbacks = input_completed ∷ s.callbacks } in
      let f =
        client_calls-Follows ts pending arrived r (client.handle_input_complete s.callbacks)
          called in
      let done = Follows-HandsAll ts pending arrived r {s = called} (record { all = h.all }) f in
      pick s.input_complete_dispatched h (
        Follows-HandsAll ts pending arrived r done (record {
          callbacks = refl;
          supplied =
              either_world ts pending arrived r (ts.vio_cont s.world) (r.at_write_complete _)
                (idle ts pending arrived r _);
        }))

  -- The copy holds the next bytes of the input.
  copied_data :
      (w : ts.World) (n : ℕ)
      → n ≤ length (pending w)
      → length (pending w) < 2147483647
      → consume_from_reader (ts.copied_avail w n) (ts.copied_blocks w n) ≡ take n (pending w)
  copied_data w n le few =
      ap (λ a. consume_from_reader a (ts.copied_blocks w n)) (r.copied w n le)
      ∙ consume_from_reader-take n (ts.copied_blocks w n) (pending w) (omega arith)
          (r.blocks w n le)

  -- Handing on the bytes that were taken off the input, or nothing if there are none.
  hand_on :
      (d : Bytes) (s : Transformation ts)
      → handed s.callbacks ++ d ++ pending s.world ≡ arrived s.world
      → HandsAll ts pending arrived r (if ltb 0 (length d) then call_consume ts client d s else s)
  unfolding call_consume handed
  hand_on [] s e = record {
    all = ap (λ d. d ++ pending s.world) (sym (append-nil (handed s.callbacks))) ∙ e;
  }
  hand_on (c ∷ d) s e =
      let called = record s { callbacks = consumed (c ∷ d) ∷ s.callbacks } in
      let done =
        Follows-HandsAll ts pending arrived r {s = called} (record { all = e })
          (client_calls-Follows ts pending arrived r (client.consume s.callbacks (c ∷ d)) called) in
      subst (λ b. HandsAll ts pending arrived r (if b then call_consume ts client (c ∷ d) s else s))
        (sym (lt→ltb 0 (suc (length d)) (omega arith))) done

  read_input-HandsAll :
      (n : ℕ) (s : Transformation ts)
      → n ≤ length (pending s.world)
      → length (pending s.world) < 2147483647
      → HandsAll ts pending arrived r s
      → HandsAll ts pending arrived r (read_input ts client n s)
  unfolding read_input
  read_input-HandsAll n s le few h =
      let w = ts.input_consume s.world n in
      let done = r.at_input_ndone w (ts.input_ndone w + n) in
      let read = record s { world = ts.input_ndone_set w (ts.input_ndone w + n) } in
      let in_data = consume_from_reader (ts.copied_avail s.world n) (ts.copied_blocks s.world n) in
      let all_taken =
        ap (λ d. d ++ pending w) (copied_data s.world n le few)
        ∙ ap (λ d. take n (pending s.world) ++ d) (r.pending-consume s.world n)
        ∙ take-append-drop n (pending s.world) in
      hand_on in_data read (
        ap (λ d. handed s.callbacks ++ in_data ++ d) done.pending_added
        ∙ regroup (handed s.callbacks) in_data (pending w) done.added
        ∙ ap (λ d. (handed s.callbacks ++ d) ++ done.added) all_taken
        ∙ ap (λ d. d ++ done.added) (h.all ∙ sym (r.arrived-consume s.world n))
        ∙ sym done.arrived_added)

  after_read-HandsAll :
      (n : ℕ) (s : Transformation ts)
      → HandsAll ts pending arrived r s
      → HandsAll ts pending arrived r (after_read ts client n s)
  unfolding after_read
  after_read-HandsAll n s h =
      let again = r.at_input_reenable s.world in
      pick (ltb 0 (ts.ntodo s.world))
        (pick (ltb 0 n)
          (world-HandsAll s h (
            either_world ts pending arrived r (ts.vio_cont s.world)
              (then_after ts pending arrived r again (r.at_write_ready _)) again))
          h)
        (dispatch-HandsAll s h)

  lesser : (m n : ℕ) → (if ltb m n then m else n) ≤ m
  lesser m n = ground arith

  handle_read-HandsAll :
      (s : Transformation ts)
      → length (pending s.world) < 2147483647
      → HandsAll ts pending arrived r s
      → HandsAll ts pending arrived r (handle_transformation_plugin_read ts client s)
  unfolding handle_transformation_plugin_read
  handle_read-HandsAll s few h =
      let todo = ts.ntodo s.world in
      let avail = ts.reader_avail s.world in
      let n = if ltb avail todo then avail else todo in
      let le = subst (λ m. n ≤ m) (r.available s.world) (lesser avail todo) in
      pick (ts.write_vio s.world)
        (pick (ltb 0 todo)
          (after_read-HandsAll n _ (pick (ltb 0 n) (read_input-HandsAll n s le few h) h))
          (dispatch-HandsAll s h))
        h

  handle_events-HandsAll :
      (e : VconnEvent) (s : Transformation ts)
      → length (pending s.world) < 2147483647
      → HandsAll ts pending arrived r s
      → HandsAll ts pending arrived r (handle_transformation_plugin_events ts client e s)
  unfolding handle_transformation_plugin_events
  handle_events-HandsAll vconn_write_complete s few h =
      pick (ts.conn_closed s.world) h (world-HandsAll s h (r.at_output_shutdown s.world))
  handle_events-HandsAll error_event s few h = pick (ts.conn_closed s.world) h (
      world-HandsAll s h (
        either_world ts pending arrived r (ts.vio_cont s.world) (r.at_error s.world)
          (idle ts pending arrived r s.world)))
  handle_events-HandsAll (any_other_event n) s few h =
      pick (ts.conn_closed s.world) h (handle_read-HandsAll s few h)

  -- Between the events, Traffic Server only adds to the input.
  unfoldable pub OnlySupplies : List (VconnEvent × (ts.World → ts.World)) → Type 0
  OnlySupplies [] = Unit
  OnlySupplies ((e, change) ∷ es) =
      ((w : ts.World) → Supplies pending arrived w (change w)) × OnlySupplies es

  -- At each event, the bytes that are to be read can be counted by an `int`, with one to spare.
  unfoldable pub ReadsFit : List (VconnEvent × (ts.World → ts.World)) → Transformation ts → Type 0
  ReadsFit [] s = Unit
  ReadsFit ((e, change) ∷ es) s =
      (length (pending (change s.world)) < 2147483647)
      × ReadsFit es
          (handle_transformation_plugin_events ts client e (record s { world = change s.world }))

  run_events-HandsAll :
      (es : List (VconnEvent × (ts.World → ts.World))) (s : Transformation ts)
      → OnlySupplies es
      → ReadsFit es s
      → HandsAll ts pending arrived r s
      → HandsAll ts pending arrived r (run_events ts client es s)
  unfolding run_events OnlySupplies ReadsFit
  run_events-HandsAll [] s o fit h = h
  run_events-HandsAll ((e, change) ∷ es) s (o, os) (few, fit) h =
      run_events-HandsAll es _ os fit
        (handle_events-HandsAll e _ few (world-HandsAll s h (o s.world)))

  -- When all that has arrived is still to be read at the start, Traffic Server only adds to the input
  -- between the events, and at each event fewer than 2 ^ 31 - 1 bytes are to be read, then after these
  -- events the bytes handed to `consume`, in the order of its calls, followed by those still to be
  -- read, are all that has arrived, whatever the plugin writes: none is lost, repeated or moved.
  pub handed-run_events :
      (es : List (VconnEvent × (ts.World → ts.World))) (w : ts.World)
      → OnlySupplies es
      → ReadsFit es (new ts w)
      → pending w ≡ arrived w
      → let s = run_events ts client es (new ts w) in
        handed s.callbacks ++ pending s.world ≡ arrived s.world
  unfolding new handed
  handed-run_events es w o fit start =
      (run_events-HandsAll es (new ts w) o fit (record { all = start })).all
