-- ===== src/Session/Commands.antt =====
-- The commands on sessions, apps/tailkvm-ui/src-tauri/src/session/mod.rs and src/lib.rs
-- (`disconnect_screen`): connecting and disconnecting the controller, named screens, and the pairing token.
use Prim.Native.String.{String, ◌++◌ as str_append}
use text.Mathlib.Text.{◌==◌ as str_eq}
use tail_kvm.Base.{
  ℕ, ◌+◌, ◌%◌, ◌^◌, Bool, true, false, ◌||◌, Option, none, some, List, [], ◌∷◌, ◌++◌, length, set,
  if◌then◌else◌,
}
use tail_kvm.Base.Dict
use tail_kvm.Base.Dict.{string_eq}
use tail_kvm.Session.Trim.{trim}
pub mod Pairing
mod Slots
mod Table
pub mod Named
pub mod Screens

-- A named session as the table and its supervisor share it; `tx` is the number of a channel.
pub record ScreenSession : Type 0 where
  pub should_run : Bool
  pub tx : Option ℕ

-- A supervisor that has been spawned: its peer, its label, the slot it fills, if it is a named session,
-- or else its generation.
pub data Spawned : Type 0 where
  controller : (addr : String) (generation : ℕ) → Spawned
  named : (addr name : String) (slot : ℕ) → Spawned

pub data Note : Type 0 where
  idle disconnect_requested accepting rejecting token_set token_cleared : Note
  connecting : (addr : String) → Note
  connecting_screen : (name addr : String) → Note
  disconnected_screen : (name : String) → Note

pub data Error : Type 0 where
  host_empty name_and_host_required : Error

-- The part of `AppState` that the commands change. `slots` are the shared sessions in the order in which
-- they were made, and `sessions` maps a name to the number of its slot.
pub record App : Type 0 where
  pub controller_generation : ℕ
  pub controller_should_run : Bool
  pub controller_tx : Option ℕ
  pub sessions : List (String × ℕ)
  pub slots : List ScreenSession
  pub accept_incoming : Bool
  pub auth_token : Option String
  pub spawned : List Spawned
  pub role : String
  pub connected : Bool
  pub peer_addr : Option String
  pub peer_name : Option String
  pub last_event : Note

-- `format!("{host}:{port}")`, with the port as text.
abbrev address : String → String → String
address host port = str_append host (str_append ":" port)

-- The answer of a command is the error, if there is one.
unfoldable pub connect_tcp_peer : String → String → App → App × Option Error
unfolding trim
connect_tcp_peer host port s =
    let addr = address (trim host) port in
    let my_gen = (s.controller_generation + 1) % 2 ^ 64 in
    if str_eq (trim host) "" then (s, some host_empty) else (
      record s {
        role = "controller";
        connected = false;
        peer_addr = some addr;
        peer_name = none;
        last_event = connecting addr;
        controller_generation = my_gen;
        controller_tx = none;
        controller_should_run = true;
        spawned = s.spawned ++ (controller addr my_gen ∷ []);
      },
      none,
    )

unfoldable pub disconnect_tcp_peer : App → App
disconnect_tcp_peer s = record s {
  controller_should_run = false;
  controller_tx = none;
  connected = false;
  last_event = disconnect_requested;
}

unfoldable pub set_accept_incoming : Bool → App → App
set_accept_incoming enabled s = record s {
  accept_incoming = enabled;
  last_event = if enabled then accepting else rejecting;
}

-- `token.map(trim).filter(|value| !value.is_empty())`
unfoldable pub usable_token : Option String → Option String
unfolding trim
usable_token none = none
usable_token (some value) = if str_eq (trim value) "" then none else some (trim value)

abbrev token_note : Option String → Note
token_note none = token_cleared
token_note (some token) = token_set

unfoldable pub set_auth_token : Option String → App → App
unfolding usable_token
set_auth_token token s = record s {
  auth_token = usable_token token;
  last_event = token_note (usable_token token);
}

-- The session of that name, if there is one, is told to stop and loses its channel.
abbrev replaced : App → String → Option ℕ → App
replaced s name none = s
replaced s name (some slot) = record s {
  sessions = Dict.erase name s.sessions;
  slots = set s.slots slot (record { should_run = false; tx = none });
}

unfoldable pub start_named_session : String → String → App → App
start_named_session name addr s =
    let s' = replaced s name (Dict.lookup name s.sessions) in
    let slot = length s'.slots in
    record s' {
      sessions = Dict.insert name slot s'.sessions;
      slots = s'.slots ++ (record { should_run = true; tx = none } ∷ []);
      spawned = s'.spawned ++ (named addr name slot ∷ []);
    }

unfoldable pub connect_screen : String → String → String → App → App × Option Error
unfolding trim start_named_session
connect_screen name host port s =
    let addr = address (trim host) port in
    let started = start_named_session (trim name) addr s in
    if str_eq (trim name) "" || str_eq (trim host) ""
    then (s, some name_and_host_required)
    else (record started { last_event = connecting_screen (trim name) addr }, none)

-- The table gives up a name that is there, and its session stops.
unfoldable pub disconnect_screen : String → App → App
unfolding trim
disconnect_screen name s =
    let s' = replaced s (trim name) (Dict.lookup (trim name) s.sessions) in
    record s' { last_event = disconnected_screen (trim name) }
