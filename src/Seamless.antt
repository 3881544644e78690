-- ===== src/Seamless.antt =====
-- The state of the two-screen capture engine, and its tests of monitor edges
-- (apps/tailkvm-ui/src-tauri/src/seamless.rs).
use Prim.Native.String.{String}
use tail_kvm.Base
use tail_kvm.Base.{
  ℕ, Bool, true, false, not, ◌&&◌, Option, none, some, List, [], ◌∷◌, ◌++◌, if◌then◌else◌,
}
use tail_kvm.Base.Dict
use tail_kvm.Base.Int.{ℤ, pos, ltb_ℤ, abs}
use tail_kvm.Base.I32.{sub_i32, max_i32, leb_ℤ, wrap32}
use tail_kvm.Float.{F64}
use tail_kvm.Net.Protocol.{WireMessage}
use tail_kvm.Core.PushGate.{PushGate, Instant}
use tail_kvm.ScreenSpace.Types.{Rect, Edge}
use tail_kvm.ScreenSpace.Guard.{SwitchGuard}
use tail_kvm.ScreenSpace.Combined.{CursorState, CombinedSpace}
use tail_kvm.ScreenSpace.Clamp.{Monitor}
use tail_kvm.Forwarding.{MouseHook, KeyboardHook}
use tail_kvm.Router.{PeerScreen}
pub mod Gain
pub mod Steps
pub mod LocalTurn
pub mod RemoteTurn
pub mod Run
pub mod Home
pub mod Safety
mod Tests

-- The plain values of `SeamlessArgs`.
pub record SeamlessArgs : Type 0 where
  pub attach_monitor : Option Monitor
  pub peer_rect : Option Monitor
  pub local_monitors : List Monitor
  pub local_rect : Rect
  pub lock_x : ℤ
  pub lock_y : ℤ
  pub switch_edge : String
  pub edge_margin : ℤ
  pub remote_width : ℤ
  pub remote_height : ℤ
  pub interval_ms : ℕ
  pub edge_dwell_ms : ℕ
  pub dead_corner_px : ℤ

-- The texts of `last_event`, each by its format string and arguments.
pub data Note : Type 0 where
  armed failsafe link_lost stopped raw_input_unavailable keyboard_failsafe stop_requested : Note
  emergency_reset : Note
  entered_at returned_at : (x y : ℤ) → Note
  active_at : (sent_count : ℕ) (x y : ℤ) → Note
  tray_paused : Note
  mouse_hook_running mouse_hook_started mouse_hook_stopping : Note
  keyboard_hook_running keyboard_hook_started keyboard_hook_failed keyboard_hook_stopping : Note

-- Messages that reached the session's channel, and positions given to the local pointer, in order.
pub data Effect : Type 0 where
  send : WireMessage → Effect
  set_cursor : (x y : ℤ) → Effect

-- What the engine shares with the commands and the other threads. `confined` is the point that the
-- system keeps the local pointer at, if any.
pub record Shared : Type 0 where
  pub capture_running : Bool
  pub remote_control_active : Bool
  pub ime_anchor : Option (ℤ × ℤ)
  pub mouse_hook : MouseHook
  pub keyboard_hook : KeyboardHook
  pub confined : Option (ℤ × ℤ)
  pub role : String
  pub connected : Bool
  pub last_event : Note
  pub effects : List Effect

-- The local variables of `run_seamless_capture`.
pub record Engine (o : F64) : Type 0 where
  pub shared : Shared
  pub combined : CombinedSpace
  pub switch_guard : SwitchGuard
  pub state : CursorState
  pub remote_active : Bool
  pub sent_count : ℕ
  pub anchor_local_rect : Option Monitor
  pub anchor_remote_size : ℤ × ℤ
  pub peer_monitors : List Monitor
  pub push_gate : PushGate
  pub link_down_since : Option Instant
  pub last_send : Instant
  pub gain : o.Carrier
  pub frac_x : o.Carrier
  pub frac_y : o.Carrier

-- What one turn finds. The sender slot, with whether its channel takes a message, and the clock are
-- given once for each time that the turn reads them; `raw_deltas` is what the turn drains.
pub record World : Type 0 where
  pub pause_pressed : Bool
  pub cursor_position : Option (ℤ × ℤ)
  pub monitor : Monitor
  pub raw_deltas : List (ℤ × ℤ)
  pub peer_name : Option String
  pub screen_sizes : List (String × PeerScreen)
  pub sender_slot : Option Bool
  pub sender_slot' : Option Bool
  pub now : Instant
  pub now' : Instant
  pub now_sent : Instant
  pub now_done : Instant
  pub mouse_hook_ok : Bool
  pub keyboard_hook_ok : Bool
  pub confine_ok : Bool

abbrev pub note : Note → Shared → Shared
note n s = record s { last_event = n }

abbrev pub emit : Effect → Shared → Shared
emit e s = record s { effects = s.effects ++ (e ∷ []) }

abbrev min_i32 : ℤ → ℤ → ℤ
min_i32 a b = if leb_ℤ a b then a else b

-- `(a - b).abs() <= tol`
unfoldable pub is_flush : ℤ → ℤ → ℤ → Bool
unfolding abs wrap32 sub_i32
is_flush tol a b = leb_ℤ (wrap32 (abs (sub_i32 a b))) tol

-- The peer rectangle touches the monitor along the edge.
unfoldable pub peer_adjacent : Monitor → Edge → Monitor → Bool
unfolding is_flush
peer_adjacent (ml, mt, mr, mb) edge (pl, pt, pr, pb) =
    let tol = pos 6 in
    let x_overlap = sub_i32 (min_i32 mr pr) (max_i32 ml pl) in
    let y_overlap = sub_i32 (min_i32 mb pb) (max_i32 mt pt) in
    elim edge [
      | Edge.bottom ↦ is_flush tol pt mb && ltb_ℤ (pos 0) x_overlap
      | Edge.top ↦ is_flush tol mt pb && ltb_ℤ (pos 0) x_overlap
      | Edge.right ↦ is_flush tol pl mr && ltb_ℤ (pos 0) y_overlap
      | Edge.left ↦ is_flush tol ml pr && ltb_ℤ (pos 0) y_overlap
    ]

abbrev eq_ℤ : ℤ → ℤ → Bool
eq_ℤ a b = leb_ℤ a b && leb_ℤ b a

abbrev pub eq_monitor : Monitor → Monitor → Bool
eq_monitor (l, t, r, b) (l', t', r', b') = eq_ℤ l l' && (eq_ℤ t t' && (eq_ℤ r r' && eq_ℤ b b'))

-- Another monitor continues the edge.
unfoldable pub continues : Monitor → Edge → Monitor → Bool
unfolding is_flush
continues (ml, mt, mr, mb) edge (nl, nt, nr, nb) =
    let tol = pos 2 in
    if eq_monitor (nl, nt, nr, nb) (ml, mt, mr, mb) then false else elim edge [
      | Edge.bottom ↦ is_flush tol nt mb && (ltb_ℤ nl mr && ltb_ℤ ml nr)
      | Edge.top ↦ is_flush tol nb mt && (ltb_ℤ nl mr && ltb_ℤ ml nr)
      | Edge.right ↦ is_flush tol nl mr && (ltb_ℤ nt mb && ltb_ℤ mt nb)
      | Edge.left ↦ is_flush tol nr ml && (ltb_ℤ nt mb && ltb_ℤ mt nb)
    ]

unfoldable pub is_outer_edge : Monitor → Edge → List Monitor → Bool
unfolding continues
is_outer_edge mon edge [] = true
is_outer_edge mon edge (m ∷ monitors) =
    not (continues mon edge m) && is_outer_edge mon edge monitors
