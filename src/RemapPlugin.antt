-- ===== src/RemapPlugin.antt =====
-- src/RemapPlugin.cc: the entry points of a remap plugin. What `doRemap` returns, and the redirect
-- flag that it leaves, are arguments.
use atscppapi.Common.{ℕ, Bool, if◌then◌else◌}

-- RemapPlugin::Result
pub data Result : Type 0 where
  result_error result_no_remap result_did_remap result_no_remap_stop result_did_remap_stop : Result

-- TSRemapStatus
pub data TsRemapStatus : Type 0 where
  tsremap_error tsremap_no_remap tsremap_did_remap tsremap_no_remap_stop : TsRemapStatus
  tsremap_did_remap_stop : TsRemapStatus

-- The `switch` of TSRemapDoRemap, and what is stored in `rri->redirect`.
unfoldable pub remap_status : Result → TsRemapStatus
remap_status result_error = tsremap_error
remap_status result_no_remap = tsremap_no_remap
remap_status result_did_remap = tsremap_did_remap
remap_status result_no_remap_stop = tsremap_no_remap_stop
remap_status result_did_remap_stop = tsremap_did_remap_stop

unfoldable pub ts_remap_do_remap : Result × Bool → TsRemapStatus × ℕ
unfolding remap_status
ts_remap_do_remap (result, redirect) = (remap_status result, if redirect then 1 else 0)
