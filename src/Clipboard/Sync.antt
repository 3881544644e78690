-- ===== src/Clipboard/Sync.antt =====
-- The watcher thread and the commands of the clipboard synchronisation,
-- apps/tailkvm-ui/src-tauri/src/clipboard_sync.rs. What the Win32 clipboard, the channels and the
-- sessions answer is input.
use Prim.Native.String.{String, count}
use text.Mathlib.Text.{◌==◌ as str_eq}
use tail_kvm.Base.{
  ℕ, Bool, true, false, Option, none, some, List, [], ◌∷◌, ◌++◌, length, ltb, if◌then◌else◌,
}
use tail_kvm.Net.Protocol.{WireMessage, clipboard_text, clipboard_image}
use tail_kvm.Session.Relay.{Peer, broadcast_message}
use tail_kvm.Clipboard.{
  Codec, ClipboardLoopGuard, should_broadcast, should_broadcast_bytes, take_chars,
}

-- What a read of the clipboard in one format answers: `Err`, `Ok(None)` or `Ok(Some(..))`.
pub data Read {ℓ} (A : Type ℓ) : Type ℓ where
  unreadable nothing : Read A
  found : A → Read A

pub data Received : Type 0 where
  changed timeout disconnected : Received

-- The lines of last_event, with the arguments of their format strings.
pub data Note : Type 0 where
  idle sync_off already_running sync_on image_skipped text_unchanged image_unchanged : Note
  text_synced image_synced : (size sent : ℕ) → Note
  text_queued image_queued : ℕ → Note

-- The shared state; `broadcasts` and `queued` are the messages handed to every peer and to the
-- controller channel so far.
pub record Sync : Type 0 where
  pub sync_running : Bool
  pub watch : Bool
  pub guard : ClipboardLoopGuard
  pub broadcasts : List WireMessage
  pub queued : List WireMessage
  pub role : String
  pub connected : Bool
  pub last_event : Note

pub record World : Type 0 where
  pub received : Received
  pub text : Read String
  pub dib : Read (List ℕ)
  pub sessions : List Peer
  pub controller_tx : Option Bool
  pub receiver_tx : Option Bool

pub data Outcome : Type 0 where
  go_on leave : Sync → Outcome

-- Characters of a text that are sent at most.
abbrev pub max_text_chars : ℕ
max_text_chars = 100000

abbrev pub note : Note → Sync → Sync
note n s = record s { last_event = n }

-- `broadcast_clipboard` and `broadcast_clipboard_image`, with the line on their success.
unfoldable pub broadcast : World → WireMessage → (ℕ → Note) → Sync → Sync
unfolding broadcast_message
broadcast w message synced s =
    let sent = broadcast_message w.sessions w.controller_tx w.receiver_tx in
    let done : Sync = record s { broadcasts = s.broadcasts ++ (message ∷ []) } in
    if ltb 0 sent then note (synced sent) done else done

module _ (c : Codec) where
  -- The clipboard holds a text that is not empty.
  unfoldable pub sync_text : World → String → Sync → Sync
  unfolding should_broadcast take_chars broadcast
  sync_text w found_text s =
      let text = take_chars max_text_chars found_text in
      let (g, should_send) = should_broadcast c text s.guard in
      let judged : Sync = record s { guard = g } in
      if should_send
      then broadcast w (clipboard_text text) (text_synced (count text)) judged
      else judged

  unfoldable pub sync_image : World → List ℕ → Sync → Sync
  unfolding should_broadcast_bytes broadcast
  sync_image w dib s =
      let (g, should_send) = should_broadcast_bytes c dib s.guard in
      let judged : Sync = record s { guard = g } in
      if should_send
      then broadcast w (clipboard_image (c.encode_dib dib)) (image_synced (length dib)) judged
      else judged

  -- Where the clipboard gives no text.
  abbrev pub try_image : World → Read (List ℕ) → Sync → Sync
  try_image w unreadable s = note image_skipped s
  try_image w nothing s = s
  try_image w (found dib) s = sync_image w dib s

  abbrev pub on_change : World → Read String → Sync → Sync
  on_change w unreadable s = try_image w w.dib s
  on_change w nothing s = try_image w w.dib s
  on_change w (found text) s = if str_eq text "" then try_image w w.dib s else sync_text w text s

  abbrev pub on_received : World → Received → Sync → Outcome
  on_received w changed s = go_on (on_change w w.text s)
  on_received w timeout s = go_on s
  on_received w disconnected s = leave s

  -- One turn of the watcher thread.
  unfoldable pub turn : World → Sync → Outcome
  unfolding sync_text sync_image
  turn w s = if s.sync_running then on_received w w.received s else leave s

  -- `send_clipboard_text`: the controller channel, if there is one, with whether it takes a message; and
  -- the answer, whether the command succeeds.
  unfoldable pub send_clipboard_text : Option Bool → Read String → Sync → Sync × Bool
  unfolding should_broadcast take_chars
  send_clipboard_text none read s = (s, false)
  send_clipboard_text (some is_open) unreadable s = (s, false)
  send_clipboard_text (some is_open) nothing s = (s, false)
  send_clipboard_text (some is_open) (found found_text) s =
      let text = take_chars max_text_chars found_text in
      let (g, should_send) = should_broadcast c text s.guard in
      let judged : Sync = record s { guard = g } in
      if str_eq found_text ""
      then (s, false)
      else if should_send
      then (if is_open
          then (
            record judged {
              queued = judged.queued ++ (clipboard_text text ∷ []);
              role = "controller";
              connected = true;
              last_event = text_queued (count text);
            },
            true,
          )
          else (judged, false))
      else (note text_unchanged judged, true)

  unfoldable pub send_clipboard_image : Option Bool → Read (List ℕ) → Sync → Sync × Bool
  unfolding should_broadcast_bytes
  send_clipboard_image none read s = (s, false)
  send_clipboard_image (some is_open) unreadable s = (s, false)
  send_clipboard_image (some is_open) nothing s = (s, false)
  send_clipboard_image (some is_open) (found dib) s =
      let (g, should_send) = should_broadcast_bytes c dib s.guard in
      let judged : Sync = record s { guard = g } in
      if should_send
      then (if is_open
          then (
            record judged {
              queued = judged.queued ++ (clipboard_image (c.encode_dib dib) ∷ []);
              role = "controller";
              connected = true;
              last_event = image_queued (length dib);
            },
            true,
          )
          else (judged, false))
      else (note image_unchanged judged, true)

-- `set_clipboard_sync`: whether it is enabled, and whether the watch can be started. The answer is
-- whether the command succeeds, and whether it spawns the watcher thread.
unfoldable pub set_clipboard_sync : Bool → Bool → Sync → Sync × Bool × Bool
set_clipboard_sync false start_ok s =
    (record s { sync_running = false; watch = false; last_event = sync_off }, true, false)
set_clipboard_sync true start_ok s =
    if s.sync_running
    then (note already_running s, true, false)
    else if start_ok
    then (record s { sync_running = true; watch = true; last_event = sync_on }, true, true)
    else (record s { sync_running = false }, false, false)
