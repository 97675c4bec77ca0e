-- ===== src/Tests/Streams.antt =====
-- A transformation over an input in memory.
use atscppapi.Common.{arith}
use atscppapi.Common.{
  ℕ, zero, suc, arith, ◌≤◌, Bytes, codes, ◌≡◌, refl, true, false, ◌++◌, some, List, [], ◌∷◌, length,
  take, drop, append-nil, sym,
}
use mathlib.Core.List.{flatten}
use atscppapi.Transformation
use atscppapi.Transformation.{
  TransformApi, Client, ClientCall, produces, sets_output_complete, VconnEvent, any_other_event,
  new, Transformation, read_input,
}
use atscppapi.Transformation.Input.{completions, run_events, completions-run_events}
use atscppapi.Transformation.Stream.{handed, Supplies, ReadsInput}
use atscppapi.Transformation.Lost.{lost-read_input}
use atscppapi.Transformation.Delivery.{OnlySupplies, ReadsFit, handed-run_events}

-- What is pending, and what has arrived.
abbrev Input : Type 0
Input = Bytes × Bytes

abbrev pending : Input → Bytes
pending w = w.0

abbrev arrived : Input → Bytes
arrived w = w.1

abbrev pub memory : TransformApi
memory = record {
  World = Input;
  conn_closed = λ w. false;
  output_vconn = λ w. true;
  vconn_write = λ w n. (true, w);
  buffer_write = λ w d. (length d, w);
  output_reenable = λ w. w;
  output_ndone_set = λ w n. w;
  output_nbytes_set = λ w n. w;
  write_vio = λ w. true;
  vio_cont = λ w. true;
  ntodo = λ w. length w.0;
  reader_avail = λ w. length w.0;
  copied_avail = λ w n. some n;
  copied_blocks = λ w n. take n w.0 ∷ [];
  input_consume = λ w n. (drop n w.0, w.1);
  input_ndone = λ w. 0;
  input_ndone_set = λ w n. w;
  input_reenable = λ w. w;
  call_write_ready = λ w. w;
  call_write_complete = λ w. w;
  call_error = λ w. w;
  output_shutdown = λ w. w;
}

abbrev echo : Client
echo = record {
  consume = λ before d. produces d ∷ [];
  handle_input_complete = λ before. sets_output_complete ∷ [];
}

same : (w : Input) → Supplies pending arrived w w
same w = record {
  added = [];
  pending_added = sym (append-nil w.0);
  arrived_added = sym (append-nil w.1);
}

memory-ReadsInput : ReadsInput memory pending arrived
unfolding flatten
memory-ReadsInput = record {
  available = λ w. refl;
  copied = λ w n le. refl;
  blocks = λ w n le. append-nil (take n w.0);
  pending-consume = λ w n. refl;
  arrived-consume = λ w n. refl;
  at_vconn_write = λ w n. same w;
  at_buffer_write = λ w d. same w;
  at_output_reenable = λ w. same w;
  at_output_ndone = λ w n. same w;
  at_output_nbytes = λ w n. same w;
  at_input_ndone = λ w n. same w;
  at_input_reenable = λ w. same w;
  at_write_ready = λ w. same w;
  at_write_complete = λ w. same w;
  at_error = λ w. same w;
  at_output_shutdown = λ w. same w;
}

abbrev arrive : Bytes → Input → Input
arrive d w = (w.0 ++ d, w.1 ++ d)

abbrev two_events : List (VconnEvent × (Input → Input))
two_events = (any_other_event 0, arrive (codes "de")) ∷ (any_other_event 0, arrive []) ∷ []

two_events-OnlySupplies : OnlySupplies memory echo pending arrived memory-ReadsInput two_events
unfolding OnlySupplies
two_events-OnlySupplies = (
  λ w. record { added = codes "de"; pending_added = refl; arrived_added = refl },
  (λ w. record { added = []; pending_added = refl; arrived_added = refl }, tt),
)

abbrev start : Input
start = (codes "abc", codes "abc")

two_events-ReadsFit :
    ReadsFit memory echo pending arrived memory-ReadsInput two_events (new memory start)
unfolding ReadsFit new Transformation.handle_transformation_plugin_events
    Transformation.handle_transformation_plugin_read Transformation.read_input
    Transformation.consume_from_reader Transformation.call_consume Transformation.client_calls
    Transformation.client_call Transformation.produce Transformation.open_output
    Transformation.write_data Transformation.set_output_complete Transformation.after_read
    Transformation.dispatch_input_complete
two_events-ReadsFit = (omega arith, (omega arith, tt))

handed-run_events_example :
    handed (run_events memory echo two_events (new memory start)).callbacks
      ++ pending (run_events memory echo two_events (new memory start)).world
    ≡ arrived (run_events memory echo two_events (new memory start)).world
handed-run_events_example =
    handed-run_events memory echo pending arrived memory-ReadsInput two_events start
      two_events-OnlySupplies two_events-ReadsFit refl

completions-run_events_example :
    completions (run_events memory echo two_events (new memory start)).callbacks ≤ 1
completions-run_events_example = completions-run_events memory echo two_events start

abbrev two_calls : List ClientCall
two_calls = produces (codes "ab") ∷ produces (codes "c") ∷ []

zeros : ℕ → Bytes
zeros zero = []
zeros (suc n) = 0 ∷ zeros n

length-zeros : (n : ℕ) → length (zeros n) ≡ n
unfolding zeros
length-zeros zero = refl
length-zeros (suc n) = omega (arith, length-zeros n)

-- A world with 2 ^ 31 bytes to be read.
abbrev large : Transformation memory
large = record (new memory ([], [])) { world = (zeros 2147483648, zeros 2147483648) }

lost-read_input_example :
    ((read_input memory echo 2147483648 large).callbacks ≡ large.callbacks)
    × ((added : Bytes) × (pending (read_input memory echo 2147483648 large).world
          ≡ drop 2147483648 (zeros 2147483648) ++ added))
lost-read_input_example =
    lost-read_input memory echo pending arrived memory-ReadsInput 2147483648 large
      (omega (arith, length-zeros 2147483648)) (omega arith) (omega arith)
