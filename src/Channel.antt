-- ===== src/Channel.antt =====
-- modules/csp/include/csp.h, `struct channel` and its flags, and the small operations on them of
-- csp.h and modules/csp/csp.c.
mod Size
mod Flags
unfoldable pub use Size.*
unfoldable pub use Flags.*
use riot_csp_module.Common.{ℕ, ◌≡◌, Bool, true, false, Option, none, some, ◌==◌, if◌then◌else◌}
use riot_csp_module.Riot.{Riot}

-- CHANNEL_BUFSIZE
abbrev pub channel_bufsize : ℕ
channel_bufsize = 32

-- `struct channel`. `file_0` and `file_1` are `files[0].rb` and `files[1].rb`, each with its
-- array; `none` is a null pointer.
pub record Channel (R : Riot) : Type 0 where
  pub creator : ℕ
  pub flags : ℕ
  pub thread_read_blocked : Option ℕ
  pub thread_write_blocked : Option ℕ
  pub file_0 : R.Rb
  pub file_1 : R.Rb

-- All that a call reads and writes: the channel and the kernel.
pub record World (R : Riot) : Type 0 where
  pub chan : Channel R
  pub open chan use *
  pub kern : R.State

module _ {R : Riot} where
  -- channel_get_rb: `files[creator].rb`, where `true` indexes as 1
  abbrev pub channel_get_rb : Bool → Channel R → R.Rb
  channel_get_rb false c = c.file_0
  channel_get_rb true c = c.file_1

  abbrev pub set_rb : Bool → R.Rb → Channel R → Channel R
  set_rb false b c = record c { file_0 = b }
  set_rb true b c = record c { file_1 = b }

  unfoldable pub channel_is_creator : World R → Bool
  channel_is_creator w = w.creator == R.getpid w.kern

  unfoldable pub channel_is_buffered : Channel R → Bool
  channel_is_buffered c = has_flag channel_buffered c.flags

  unfoldable pub channel_is_closed : Channel R → Bool
  channel_is_closed c = has_flag channel_closed c.flags

  -- the file that the caller sends on
  unfoldable pub channel_is_empty : World R → Bool
  channel_is_empty w = R.rb_empty (channel_get_rb (channel_is_creator w) w.chan)

  unfoldable pub channel_make : R.State → Bool → Channel R
  channel_make k buffered = record {
    creator = R.getpid k;
    flags = if buffered then channel_buffered else 0;
    thread_read_blocked = none;
    thread_write_blocked = none;
    file_0 = R.rb_init channel_bufsize;
    file_1 = R.rb_init channel_bufsize;
  }

  unfoldable pub channel_close : Channel R → Channel R
  channel_close c = record c { flags = add_flag channel_closed c.flags }

  channel_set_owner : Channel R → ℕ → Channel R
  channel_set_owner c thread_id = record c { creator = thread_id }

  unfoldable pub channel_set_buffered : Channel R → Bool → Channel R
  channel_set_buffered c buffered = record c { flags = add_flag (shifted buffered) c.flags }
