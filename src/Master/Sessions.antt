-- ===== src/Master/Sessions.antt =====
-- src/edgeshard/control/master/sessions.py: the one current session of each Worker and the last
-- accepted heartbeat number in it. The fresh id that the session factory returns is an argument.
use edge_shard_v.Shared.{
  ℕ, String, ◌==◌, not, Option, none, some, Result, Checked, ok, err, value_error, key_error,
  raise_if, ◌>>◌, is_empty, leb, if◌then◌else◌,
}
use edge_shard_v.Shared.Dict.{Dict, get, put}
use edge_shard_v.Master.Requests.{
  RejectionReason, unknown_worker, stale_session, instance_mismatch, out_of_order, Detail, text,
}

pub record Rejection : Type 0 where
  pub reason : RejectionReason
  pub detail : Detail

-- The last accepted number is never negative: it starts at 0 and only grows.
pub record SessionInfo : Type 0 where
  pub worker_id : String
  pub instance_id : String
  pub session_id : String
  pub last_accepted_sequence : ℕ

unfoldable pub check_session_info : SessionInfo → Checked
check_session_info s = do
  raise_if (is_empty s.worker_id) value_error
  raise_if (is_empty s.instance_id) value_error
  raise_if (is_empty s.session_id) value_error

abbrev pub Sessions : Type 0
Sessions = Dict SessionInfo

unfoldable pub new_session : String → String → String → SessionInfo
new_session worker_id instance_id fresh = record {
  worker_id = worker_id;
  instance_id = instance_id;
  session_id = fresh;
  last_accepted_sequence = 0;
}

unfoldable pub open_session : String → String → String → Sessions → Result Sessions
unfolding new_session check_session_info
open_session worker_id instance_id fresh m = do
  let info = new_session worker_id instance_id fresh
  check_session_info info
  ok (put worker_id info m)

abbrev reject : RejectionReason → String → Option Rejection
reject r d = some (record { reason = r; detail = text d })

abbrev session_of : Option SessionInfo → String → String → Option Rejection
session_of none instance_id session_id = reject unknown_worker "unknown worker"
session_of (some info) instance_id session_id =
    if not (info.session_id == session_id)
    then reject stale_session "stale session"
    else if not (info.instance_id == instance_id)
    then reject instance_mismatch "instance mismatch"
    else none

unfoldable pub check_session : String → String → String → Sessions → Option Rejection
check_session worker_id instance_id session_id m =
    session_of (get worker_id m) instance_id session_id

abbrev heartbeat_of : Option SessionInfo → String → String → ℕ → Option Rejection
heartbeat_of none instance_id session_id sequence = reject unknown_worker "unknown worker"
heartbeat_of (some info) instance_id session_id sequence =
    if not (info.session_id == session_id)
    then reject stale_session "stale session"
    else if not (info.instance_id == instance_id)
    then reject instance_mismatch "instance mismatch"
    else if leb sequence info.last_accepted_sequence
    then reject out_of_order "out-of-order heartbeat"
    else none

unfoldable pub check_heartbeat : String → String → String → ℕ → Sessions → Option Rejection
check_heartbeat worker_id instance_id session_id sequence m =
    heartbeat_of (get worker_id m) instance_id session_id sequence

abbrev advance : Option SessionInfo → String → ℕ → Sessions → Result Sessions
advance none worker_id sequence m = err key_error
advance (some info) worker_id sequence m =
    if leb sequence info.last_accepted_sequence
    then err value_error
    else ok (put worker_id (record info { last_accepted_sequence = sequence }) m)

unfoldable pub record_accepted_sequence : String → ℕ → Sessions → Result Sessions
record_accepted_sequence worker_id sequence m = advance (get worker_id m) worker_id sequence m
