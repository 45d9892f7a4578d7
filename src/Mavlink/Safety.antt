-- ===== src/Mavlink/Safety.antt =====
-- `feed_byte` of comms/veloxity_mavlink/src/parser.rs at any byte: the buffer's bounds, and the frames
-- that it hands out.
use mathlib.Core.Option
use veloxity.Base.{ℕ, ◌≡◌, Option, some}
use veloxity.Mavlink.Parser.{CompleteFrame, MavlinkParser, feed_byte}
use veloxity.Mavlink.Tracking.{Outcome}

-- What `feed_byte` does to a byte in the state, with a panic ruled out.
abbrev pub Feeds : MavlinkParser → ℕ → Type 0
Feeds p b = (out : MavlinkParser × Option CompleteFrame) × (feed_byte p b ≡ some out) × Outcome out
