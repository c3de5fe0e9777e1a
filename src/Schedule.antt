-- ===== src/Schedule.antt =====
-- Scheduled times, src/lib/scheduling.ts. Calendar has what `Date.UTC` computes, Digits the texts of
-- dates and times, Iso the server's check, Zone the wall clocks, Form what the browser does with the
-- fields of the form.
pub mod Calendar
pub mod Digits
pub mod Iso
pub mod Zone
pub mod Form
mod Tests
use ai_email_broadcast_hw.Base.{ℕ, Option, List, Text}

pub data ErrorCode : Type 0 where
  required format invalid nonexistent ambiguous past : ErrorCode

pub data Field : Type 0 where
  date time both : Field

pub data Occurrence : Type 0 where
  first second : Occurrence

-- The instants of `choices` are in order, the first occurrence first.
pub data ScheduleResult : Type 0 where
  ok : (date : ℕ) → ScheduleResult
  failed : ErrorCode → Option Field → List ℕ → ScheduleResult
