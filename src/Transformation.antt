-- ===== src/Transformation.antt =====
-- src/TransformationPlugin.cc, and `consumeFromTSIOBufferReader` of src/utils_internal.cc: a plugin
-- between an input that is read as it arrives and an output that is written.
pub mod Output
pub mod Tally
pub mod Input
pub mod Stream
pub mod Delivery
pub mod Lost
use atscppapi.Common.{
  ℕ, zero, suc, ◌+◌, Bytes, Bool, true, false, not, ◌&&◌, ◌++◌, Option, none, some, List, [], ◌∷◌,
  ltb, leb, length, ◌==◌, ◌%◌, if◌then◌else◌,
}

-- The functions of Traffic Server (ts/ts.h) on virtual connections, VIOs and buffers. A pointer
-- that is only compared with null is a `Bool`, true where it is not null. Sizes are not negative.
pub record TransformApi : Type 1 where
  pub World : Type 0
  -- TSVConnClosedGet of the plugin's connection, TSTransformOutputVConnGet
  pub conn_closed : World → Bool
  pub output_vconn : World → Bool
  -- TSVConnWrite to the output, with the number of bytes announced
  pub vconn_write : World → ℕ → Bool × World
  -- TSIOBufferWrite to the output buffer: how many bytes were written
  pub buffer_write : World → Bytes → ℕ × World
  -- TSVIOReenable, TSVIONDoneSet and TSVIONBytesSet of the output VIO
  pub output_reenable : World → World
  pub output_ndone_set : World → ℕ → World
  pub output_nbytes_set : World → ℕ → World
  -- TSVConnWriteVIOGet, TSVIOContGet, TSVIONTodoGet, TSIOBufferReaderAvail of its reader
  pub write_vio : World → Bool
  pub vio_cont : World → Bool
  pub ntodo : World → ℕ
  pub reader_avail : World → ℕ
  -- TSIOBufferCopy into a new buffer: what TSIOBufferReaderAvail then says of its reader (`none`
  -- for TS_ERROR), and its blocks
  pub copied_avail : World → ℕ → Option ℕ
  pub copied_blocks : World → ℕ → List Bytes
  -- TSIOBufferReaderConsume of the input's reader, TSVIONDoneGet and TSVIONDoneSet of the input
  pub input_consume : World → ℕ → World
  pub input_ndone : World → ℕ
  pub input_ndone_set : World → ℕ → World
  -- TSVIOReenable of the input, TSContCall of its continuation with WRITE_READY, WRITE_COMPLETE
  -- and EVENT_ERROR, TSVConnShutdown of the output
  pub input_reenable : World → World
  pub call_write_ready : World → World
  pub call_write_complete : World → World
  pub call_error : World → World
  pub output_shutdown : World → World

-- What a plugin does in its methods: calls of `produce` and `setOutputComplete`.
pub data ClientCall : Type 0 where
  produces : Bytes → ClientCall
  sets_output_complete : ClientCall

-- A method of the plugin that was called.
pub data Callback : Type 0 where
  consumed : Bytes → Callback
  input_completed : Callback

-- What the plugin's methods do when they are called. A plugin may have a state: what a method does is
-- a function of the methods called before, the last one first.
pub record Client : Type 0 where
  pub consume : List Callback → Bytes → List ClientCall
  pub handle_input_complete : List Callback → List ClientCall

-- TransformationPluginState, the world, and the methods called so far, the last one first.
pub record Transformation (ts : TransformApi) : Type 0 where
  pub output_vio : Bool
  pub bytes_written : ℕ
  pub input_complete_dispatched : Bool
  pub world : ts.World
  pub callbacks : List Callback

-- TSEvent, as far as the handler tells the events apart.
pub data VconnEvent : Type 0 where
  vconn_write_complete error_event : VconnEvent
  any_other_event : ℕ → VconnEvent

two_31 : ℕ
two_31 = 2147483648

two_32 : ℕ
two_32 = 4294967296

join_blocks : List Bytes → Bytes → Bytes
join_blocks [] str = str
join_blocks (block ∷ blocks) str = join_blocks blocks (str ++ block)

-- consumeFromTSIOBufferReader. What is available is stored in an `int`: its low 32 bits count, and
-- from 2 ^ 31 on they stand for a negative number, -1 being TS_ERROR; then the text stays empty.
unfoldable pub consume_from_reader : Option ℕ → List Bytes → Bytes
unfolding join_blocks two_31 two_32
consume_from_reader none blocks = []
consume_from_reader (some avail) blocks =
    if ltb 0 (avail % two_32) && ltb (avail % two_32) two_31 then join_blocks blocks [] else []

int64_max : ℕ
int64_max = 9223372036854775807

module _ (ts : TransformApi) where
  unfoldable pub new : ts.World → Transformation ts
  new world = record {
    output_vio = false;
    bytes_written = 0;
    input_complete_dispatched = false;
    world = world;
    callbacks = [];
  }

  -- The part of `produce` that opens the output; the VIO is null afterwards if that failed.
  unfoldable pub open_output : Transformation ts → Transformation ts
  unfolding int64_max
  open_output s =
      let (vio, world) = ts.vconn_write s.world int64_max in
      if s.output_vio
      then s
      else if ts.output_vconn s.world
      then record s { output_vio = vio; world = world }
      else s

  -- The part of `produce` that copies the data.
  unfoldable pub write_data : Bytes → Transformation ts → ℕ × Transformation ts
  write_data d s =
      let (written, world) = ts.buffer_write s.world d in
      (
        written,
        record s {
          bytes_written = s.bytes_written + written;
          world = if ts.conn_closed world then world else ts.output_reenable world;
        },
      )

  unfoldable pub produce : Bytes → Transformation ts → ℕ × Transformation ts
  unfolding open_output write_data
  produce d s =
      let opened = open_output s in
      if length d == 0
      then (0, s)
      else if opened.output_vio
      then write_data d opened
      else (0, opened)

  unfoldable pub set_output_complete : Transformation ts → ℕ × Transformation ts
  set_output_complete s =
      let (vio, world) = ts.vconn_write s.world 0 in
      if not (ts.conn_closed s.world) && not s.output_vio
      then (
        0,
        record s {
          output_vio = vio;
          world = if vio then ts.output_reenable (ts.output_ndone_set world 0) else world;
        },
      )
      else if not (ts.conn_closed s.world)
      then (
        s.bytes_written,
        record s { world = ts.output_reenable (ts.output_nbytes_set s.world s.bytes_written) },
      )
      else (s.bytes_written, s)

  unfoldable pub client_call : ClientCall → Transformation ts → Transformation ts
  unfolding produce set_output_complete
  client_call (produces d) s = (produce d s).1
  client_call sets_output_complete s = (set_output_complete s).1

  unfoldable pub client_calls : List ClientCall → Transformation ts → Transformation ts
  unfolding client_call
  client_calls [] s = s
  client_calls (c ∷ cs) s = client_calls cs (client_call c s)

module _ (ts : TransformApi) (client : Client) where
  unfoldable pub call_consume : Bytes → Transformation ts → Transformation ts
  unfolding client_calls
  call_consume d s =
      client_calls ts (client.consume s.callbacks d)
        (record s { callbacks = consumed d ∷ s.callbacks })

  -- The branch for input that has ended, once.
  unfoldable pub dispatch_input_complete : Transformation ts → Transformation ts
  unfolding client_calls
  dispatch_input_complete s =
      let done =
        client_calls ts (client.handle_input_complete s.callbacks)
          (record s { callbacks = input_completed ∷ s.callbacks }) in
      if s.input_complete_dispatched then s else record done {
        input_complete_dispatched = true;
        world = if ts.vio_cont s.world then ts.call_write_complete done.world else done.world;
      }

  -- Reading `to_read` bytes and handing them to the plugin.
  unfoldable pub read_input : ℕ → Transformation ts → Transformation ts
  unfolding consume_from_reader call_consume
  read_input to_read s =
      let in_data =
        consume_from_reader (ts.copied_avail s.world to_read) (ts.copied_blocks s.world to_read) in
      let w = ts.input_consume s.world to_read in
      let read = record s { world = ts.input_ndone_set w (ts.input_ndone w + to_read) } in
      if ltb 0 (length in_data) then call_consume in_data read else read

  -- What follows the reading: more is asked for, or the input has ended.
  unfoldable pub after_read : ℕ → Transformation ts → Transformation ts
  unfolding dispatch_input_complete
  after_read to_read s =
      let w = ts.input_reenable s.world in
      if ltb 0 (ts.ntodo s.world)
      then (if ltb 0 to_read
          then record s { world = if ts.vio_cont s.world then ts.call_write_ready w else w }
          else s)
      else dispatch_input_complete s

  unfoldable pub handle_transformation_plugin_read : Transformation ts → Transformation ts
  unfolding read_input after_read dispatch_input_complete
  handle_transformation_plugin_read s =
      let todo = ts.ntodo s.world in
      let avail = ts.reader_avail s.world in
      let to_read = if ltb avail todo then avail else todo in
      if ts.write_vio s.world
      then (if ltb 0 todo
          then after_read to_read (if ltb 0 to_read then read_input to_read s else s)
          else dispatch_input_complete s)
      else s

  unfoldable pub handle_transformation_plugin_events :
      VconnEvent → Transformation ts → Transformation ts
  unfolding handle_transformation_plugin_read
  handle_transformation_plugin_events event s = if ts.conn_closed s.world then s else elim event [
    | vconn_write_complete ↦ record s { world = ts.output_shutdown s.world }
    | error_event ↦ record s {
      world = if ts.vio_cont s.world then ts.call_error s.world else s.world;
    }
    | any_other_event _ ↦ handle_transformation_plugin_read s
  ]
