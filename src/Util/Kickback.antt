-- ===== src/Util/Kickback.antt =====
-- utils/src/kickback.rs: events with seats that are reserved.
use sunshine_node.Prelude.{ℕ, Option, none, some, leb, if◌then◌else◌}
use sunshine_node.Word.{add32}

pub record KickbackEvent : Type 0 where
  pub info : ℕ
  pub supervisor : ℕ
  pub reservation_req : ℕ
  pub expected_attendance : ℕ
  pub attendance_limit : ℕ

abbrev pub new : ℕ → ℕ → ℕ → ℕ → KickbackEvent
new info supervisor reservation_req attendance_limit = record {
  info = info;
  supervisor = supervisor;
  reservation_req = reservation_req;
  expected_attendance = 0;
  attendance_limit = attendance_limit;
}

abbrev pub increment_attendance : KickbackEvent → Option KickbackEvent
increment_attendance k =
    let new_attendance = add32 k.expected_attendance 1 in
    if leb new_attendance k.attendance_limit
    then some (record k { expected_attendance = new_attendance })
    else none
