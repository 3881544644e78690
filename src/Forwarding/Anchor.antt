-- ===== src/Forwarding/Anchor.antt =====
-- The place and the options of the IME capture window, `resolve_ime_anchor` and
-- `build_ime_capture_options` of apps/tailkvm-ui/src-tauri/src/forwarding.rs.
use Prim.Native.String.{String}
use text.Mathlib.Text.{◌==◌ as str_eq}
use tail_kvm.Base.{◌≡◌, ◌&&◌, Option, none, some, arith, if◌then◌else◌}
use tail_kvm.Base.Int.{ℤ, pos}
use tail_kvm.Base.I32.{add_i32, clamp_value, leb_ℤ, half_i32, max_i32, clamp_i32, sub_i32}
use tail_kvm.Ime.Anchor.{AnchorRect, clamp_anchor, anchored}

-- The settings that the anchor and the options depend on.
pub record ImeSettings : Type 0 where
  pub candidate_position_mode : String
  pub ime_open_policy : String
  pub conversion_mode_policy : String
  pub focus_failure_policy : String
  pub fixed_x : ℤ
  pub fixed_y : ℤ
  pub capture_window_size : ℤ
  pub lock_near_offset : ℤ

-- What the system answers: the cursor, and the monitor that contains a point.
pub record Desktop : Type 0 where
  pub cursor : Option (ℤ × ℤ)
  pub monitor_rect_at_point : ℤ → ℤ → AnchorRect

abbrev center : AnchorRect → ℤ × ℤ
center (left, top, right, bottom) = (half_i32 (add_i32 left right), half_i32 (add_i32 top bottom))

abbrev monitor_center : Desktop → Option (ℤ × ℤ) → Option (ℤ × ℤ)
monitor_center d none = none
monitor_center d (some (x, y)) = some (center (d.monitor_rect_at_point x y))

-- The position that the mode asks for, if its data is there.
unfoldable pub raw_anchor : ImeSettings → Option (ℤ × ℤ) → Desktop → Option (ℤ × ℤ)
raw_anchor settings shared d =
    if str_eq settings.candidate_position_mode "remote_projected"
    then shared
    else if str_eq settings.candidate_position_mode "monitor_center"
    then monitor_center d d.cursor
    else if str_eq settings.candidate_position_mode "fixed"
    then some (settings.fixed_x, settings.fixed_y)
    else if str_eq settings.candidate_position_mode "legacy_top_left"
    then some (pos 0, pos 0)
    else none

abbrev near_cursor : ℤ → Option (ℤ × ℤ) → ℤ × ℤ
near_cursor offset none = (pos 0, pos 0)
near_cursor offset (some (x, y)) = (add_i32 x offset, add_i32 y offset)

abbrev or_near : ℤ → Option (ℤ × ℤ) → Option (ℤ × ℤ) → ℤ × ℤ
or_near offset cursor none = near_cursor offset cursor
or_near offset cursor (some p) = p

abbrev clamped : Desktop → ℤ × ℤ → Option (ℤ × ℤ)
clamped d (x, y) = clamp_anchor x y (d.monitor_rect_at_point x y)

unfoldable pub resolve_ime_anchor : ImeSettings → Option (ℤ × ℤ) → Desktop → Option (ℤ × ℤ)
unfolding raw_anchor clamp_anchor
resolve_ime_anchor settings shared d =
    let offset =
      if leb_ℤ (pos 0) settings.lock_near_offset && leb_ℤ settings.lock_near_offset (pos 256)
      then settings.lock_near_offset
      else pos 24 in
    clamped d (or_near offset d.cursor (raw_anchor settings shared d))

pub data ImeOpenPolicy : Type 0 where
  force_japanese preserve_current restore_last_tailkvm manual : ImeOpenPolicy

pub data ImeConversionPolicy : Type 0 where
  native_default native_fullshape preserve last_used : ImeConversionPolicy

pub data FocusFailurePolicy : Type 0 where
  retry warn_continue abort : FocusFailurePolicy

pub record ImeCaptureOptions : Type 0 where
  pub anchor_x : ℤ
  pub anchor_y : ℤ
  pub window_size : ℤ
  pub open_policy : ImeOpenPolicy
  pub conversion_policy : ImeConversionPolicy
  pub focus_failure_policy : FocusFailurePolicy

unfoldable pub build_ime_capture_options : ImeSettings → ℤ × ℤ → ImeCaptureOptions
unfolding clamp_value
build_ime_capture_options settings (x, y) = record {
  anchor_x = x;
  anchor_y = y;
  window_size = clamp_value settings.capture_window_size (pos 1) (pos 16);
  open_policy =
      if str_eq settings.ime_open_policy "preserve_current"
      then preserve_current
      else if str_eq settings.ime_open_policy "restore_last_tailkvm"
      then restore_last_tailkvm
      else if str_eq settings.ime_open_policy "manual"
      then manual
      else force_japanese;
  conversion_policy =
      if str_eq settings.conversion_mode_policy "native_fullshape"
      then native_fullshape
      else if str_eq settings.conversion_mode_policy "preserve"
      then preserve
      else if str_eq settings.conversion_mode_policy "last_used"
      then last_used
      else native_default;
  focus_failure_policy =
      if str_eq settings.focus_failure_policy "abort"
      then abort
      else if str_eq settings.focus_failure_policy "warn_continue"
      then warn_continue
      else retry;
}

anchored_total : (a from to : ℤ) → (v : ℤ) × (anchored a from to ≡ some v)
unfolding anchored clamp_i32
anchored_total a from to =
    let lo = add_i32 from (pos 16) in
    let hi = max_i32 (sub_i32 (sub_i32 to (pos 1)) (pos 16)) lo in
    (clamp_value a lo hi, ground arith)

clamp_anchor_total : (x y : ℤ) (m : AnchorRect) → (p : ℤ × ℤ) × (clamp_anchor x y m ≡ some p)
unfolding clamp_anchor
clamp_anchor_total x y (left, top, right, bottom) =
    let (u, eu) = anchored_total x left right in
    let (v, ev) = anchored_total y top bottom in ((u, v), rw (eu, ev))

-- The clamp of `resolve_ime_anchor` never panics.
pub resolve_ime_anchor_total :
    (settings : ImeSettings) (shared : Option (ℤ × ℤ)) (d : Desktop)
    → (p : ℤ × ℤ) × (resolve_ime_anchor settings shared d ≡ some p)
unfolding resolve_ime_anchor
resolve_ime_anchor_total settings shared d = clamp_anchor_total _ _ _
