-- ===== src/Bounds.antt =====
-- How far the calls of modules/csp/csp.c go in the memory of their callers, on every branch and whatever
-- the channel holds: here what a point or a result allows, in the child modules the calls.
pub mod Sends
pub mod Receives
use riot_csp_module.Common.{ℕ, ◌≤◌, ◌<◌, ◌≡◌, List, length}
use riot_csp_module.Sched.{Outcome, done, paused}
use riot_csp_module.Send.{Message, SendPoint}
use riot_csp_module.Recv.{RecvPoint, Received}

-- At a point a send has read no more of its data than there is.
abbrev pub ReadWithin : Message → SendPoint → Type 0
ReadWithin m SendPoint.synchronized = Unit
ReadWithin m (SendPoint.header side) = Unit
ReadWithin m (SendPoint.chunk_sent side bytes) = bytes ≤ m.data_size
ReadWithin m (SendPoint.data_wait side bytes) = bytes ≤ m.data_size

-- The same of what a send returns, or of where it pauses.
abbrev pub SendsWithin : {S : Type 0} → Message → Outcome SendPoint ℕ × S → Type 0
SendsWithin m (done bytes, w) = bytes ≤ m.data_size
SendsWithin m (paused p point, w) = ReadWithin m point

-- the size that a receive has taken from the channel at a point, 0 before it has
abbrev pub size_at : RecvPoint → ℕ
size_at RecvPoint.synchronized = 0
size_at (RecvPoint.header side) = 0
size_at (RecvPoint.chunk_got side data_size out) = data_size
size_at (RecvPoint.data_wait side data_size out) = data_size

-- At a point a receive has stored no more bytes than that size.
abbrev pub StoredWithin : RecvPoint → Type 0
StoredWithin RecvPoint.synchronized = Unit
StoredWithin (RecvPoint.header side) = Unit
StoredWithin (RecvPoint.chunk_got side data_size out) = length out ≤ data_size
StoredWithin (RecvPoint.data_wait side data_size out) = length out ≤ data_size

-- The size of a receive stays once it is taken.
abbrev pub SameSize : RecvPoint → RecvPoint → Type 0
SameSize RecvPoint.synchronized next = Unit
SameSize (RecvPoint.header side) next = Unit
SameSize (RecvPoint.chunk_got side data_size out) next = size_at next ≡ data_size
SameSize (RecvPoint.data_wait side data_size out) next = size_at next ≡ data_size

-- What a receive that goes on from a point does: it returns no larger a number than that of the bytes it
-- has stored, and these are no more than the size, or it pauses within it.
abbrev pub ReceivesWithin : {S : Type 0} → RecvPoint → Outcome RecvPoint Received × S → Type 0
ReceivesWithin point (done (data_size, out), w) =
    (data_size ≤ length out) × (length out ≤ size_at point)
ReceivesWithin point (paused p next, w) = StoredWithin next × SameSize point next
