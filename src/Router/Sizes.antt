-- ===== src/Router/Sizes.antt =====
-- The rectangles and the links that a layout config gives (apps/tailkvm-ui/src-tauri/src/router.rs).
use Prim.Native.String.{String}
use text.Mathlib.TextEquality.{eq_iff}
use mathlib.Core.Path.{subst}
use tail_kvm.Base.{
  ◌≡◌, refl, sym, ap, ◌∙◌, ◌≢◌, ◌↔◌, Bool, true, false, ◌||◌, Option, none, some, List, [], ◌∷◌,
  arith, if◌then◌else◌,
}
use tail_kvm.Base.Int.{ℤ, pos, ◌+ℤ◌, +ℤ_parts}
use tail_kvm.Base.I32.{IsCoord}
use tail_kvm.Base.Dict
use tail_kvm.Base.Dict.{string_eq, lookup-insert}
use tail_kvm.ScreenSpace.Types.{Rect, Edge, opposite, from_label}
use tail_kvm.ScreenSpace.Mapping.{IsScreen}
use tail_kvm.ScreenSpace.Bounds.{HasRoom}
use tail_kvm.LayoutGraph.Graph
use tail_kvm.LayoutGraph.Graph.{LayoutGraph, port_beq, port_beq_iff}
use tail_kvm.LayoutGraph.Links.{neighbor-link}
use tail_kvm.Session.Receiver.{RectI32}
use tail_kvm.Router.{PeerScreen}
use tail_kvm.Router.Commands.{
  RouterScreen, RouterLink, keeps_local, local_screen, has_local, sized, virtual_rect, remote_rect,
  rect_of, insert_screens, insert_links,
}

-- A screen with room for the inset of 2 pixels that `MultiScreenSpace::new` sets.
abbrev pub IsRoomy : Rect → Type 0
IsRoomy r = IsScreen r × HasRoom (pos 2) r

-- The sizes that the config gives and that the peers report are in range. They may be zero or negative.
unfoldable pub AreSized : List RouterScreen → Type 0
AreSized [] = Unit {0}
AreSized (s ∷ ss) = (IsCoord s.width × IsCoord s.height) × AreSized ss

abbrev pub AreReported : List (String × PeerScreen) → Type 0
AreReported reported =
    (name : String) (peer : PeerScreen)
    → Dict.lookup name reported ≡ some peer
    → IsCoord peer.width × IsCoord peer.height

-- No link of the config leads from the local screen to itself.
unfoldable pub HasNoLoop : String → List RouterLink → Type 0
HasNoLoop local [] = Unit {0}
HasNoLoop local (l ∷ ls) = (l.from ≡ local → l.to ≢ local) × HasNoLoop local ls

sized-IsRoomy : (w h : ℤ) → IsCoord w → IsCoord h → IsRoomy (sized w h)
sized-IsRoomy w h hw hh = (
  record {
    left_fits = omega arith;
    top_fits = omega arith;
    right_fits = ground arith;
    bottom_fits = ground arith;
    wide = ground (arith, +ℤ_parts (pos 0) (pos 1));
    tall = ground (arith, +ℤ_parts (pos 0) (pos 1));
  },
  record {
    across = ground (arith, +ℤ_parts (pos 0) (pos 2), +ℤ_parts (pos 0 +ℤ pos 2) (pos 1));
    down = ground (arith, +ℤ_parts (pos 0) (pos 2), +ℤ_parts (pos 0 +ℤ pos 2) (pos 1));
  },
)

module _ (vs : RectI32) (reported : List (String × PeerScreen)) (whole : IsRoomy (virtual_rect vs))
    (sizes : AreReported reported) where
  pub remote_rect-IsRoomy :
      (s : RouterScreen) (peer : Option PeerScreen)
      → IsCoord s.width × IsCoord s.height
      → Dict.lookup s.name reported ≡ peer
      → IsRoomy (remote_rect s peer)
  remote_rect-IsRoomy s none h e = sized-IsRoomy s.width s.height h.0 h.1
  remote_rect-IsRoomy s (some peer) h e =
      let k = sizes s.name peer e in sized-IsRoomy peer.width peer.height k.0 k.1

  rect_of-IsRoomy :
      (s : RouterScreen) → IsCoord s.width × IsCoord s.height → IsRoomy (rect_of vs reported s)
  rect_of-IsRoomy s h = choose s.is_local
    where
      choose :
          (b : Bool)
          → IsRoomy (if b then virtual_rect vs else remote_rect s (Dict.lookup s.name reported))
      choose true = whole
      choose false = remote_rect-IsRoomy s (Dict.lookup s.name reported) h refl

  -- Every rectangle of the map is roomy.
  unfoldable pub AreRoomy : List (String × Rect) → Type 0
  AreRoomy m = (name : String) (r : Rect) → Dict.lookup name m ≡ some r → IsRoomy r

  insert-AreRoomy :
      (m : List (String × Rect)) (name : String) (r : Rect)
      → IsRoomy r
      → AreRoomy m
      → AreRoomy (Dict.insert name r m)
  unfolding AreRoomy
  insert-AreRoomy m name r h k other r' e =
      choose (string_eq.beq name other) (sym (lookup-insert name other r m) ∙ e)
    where
      choose : (b : Bool) → (if b then some r else Dict.lookup other m) ≡ some r' → IsRoomy r'
      choose true same = subst IsRoomy (cc) h
      choose false old = k other r' old

  pub insert_screens-AreRoomy :
      (m : List (String × Rect)) (ss : List RouterScreen)
      → AreSized ss
      → AreRoomy m
      → AreRoomy (insert_screens vs reported m ss)
  unfolding insert_screens AreSized
  insert_screens-AreRoomy m [] h k = k
  insert_screens-AreRoomy m (s ∷ ss) (hs, h) k =
      insert_screens-AreRoomy (Dict.insert s.name (rect_of vs reported s) m) ss h
        (insert-AreRoomy m s.name (rect_of vs reported s) (rect_of-IsRoomy s hs) k)

module _ (local : String) where
  -- The local screen is not its own neighbour.
  unfoldable pub IsLoopless : LayoutGraph → Type 0
  IsLoopless g = (e : Edge) → Graph.neighbor g local e ≢ some local

  link-IsLoopless :
      (g : LayoutGraph) (l : RouterLink)
      → (l.from ≡ local → l.to ≢ local)
      → IsLoopless g
      → IsLoopless (Graph.link g l.from (from_label l.edge) l.to)
  unfolding IsLoopless
  link-IsLoopless g l h k e at =
      let edge = from_label l.edge in
      choose (port_beq (l.to, opposite edge) (local, e)) (port_beq (l.from, edge) (local, e)) refl
        refl (sym (neighbor-link g l.from l.to local edge e) ∙ at)
    where
      choose :
          (b c : Bool)
          → port_beq (l.to, opposite (from_label l.edge)) (local, e) ≡ b
          → port_beq (l.from, from_label l.edge) (local, e) ≡ c
          → (if b then some l.from else if c then some l.to else Graph.neighbor g local e)
            ≡ some local
          → ⊥
      choose true c hb hc q =
          h (cc)
            (ap (λ p. p.0) ((port_beq_iff (l.to, opposite (from_label l.edge)) (local, e)).0 hb))
      choose false true hb hc q =
          h (ap (λ p. p.0) ((port_beq_iff (l.from, from_label l.edge) (local, e)).0 hc)) (cc)
      choose false false hb hc q = k e q

  pub insert_links-IsLoopless :
      (g : LayoutGraph) (ls : List RouterLink)
      → HasNoLoop local ls
      → IsLoopless g
      → IsLoopless (insert_links g ls)
  unfolding insert_links HasNoLoop
  insert_links-IsLoopless g [] h k = k
  insert_links-IsLoopless g (l ∷ ls) (hl, h) k =
      insert_links-IsLoopless (Graph.link g l.from (from_label l.edge) l.to) ls h
        (link-IsLoopless g l hl k)

pub has_local-local_screen :
    (ss : List RouterScreen) (local : String) → local_screen ss ≡ some local → has_local ss ≡ true
unfolding local_screen has_local
has_local-local_screen [] local h = cc
has_local-local_screen (s ∷ ss) local h = choose s.is_local (has_local-local_screen ss local) h
  where
    choose :
        (b : Bool)
        → (local_screen ss ≡ some local → has_local ss ≡ true)
        → (if b then some s.name else local_screen ss) ≡ some local
        → (b || has_local ss) ≡ true
    choose true later e = refl
    choose false later e = later e

pub kept_local :
    (old new : Option String) (local : String)
    → old ≡ some local
    → (keeps_local old new ≡ true) ↔ (new ≡ some local)
kept_local none new local e = cc
kept_local (some l) none local e = (λ h. cc, λ h. cc)
kept_local (some l) (some name) local e = ground (arith, eq_iff name l)
