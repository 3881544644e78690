-- ===== src/LayoutGraph/Graph.antt =====
-- `LayoutGraph` of crates/tailkvm-win32/src/layout_graph.rs: which screen lies across which edge.
use Prim.Native.String.{String}
use tail_kvm.Base.{ℕ, ◌≡◌, ◌↔◌, Bool, true, false, ◌&&◌, Option, List, [], arith, length}
use tail_kvm.Base.Dict
use tail_kvm.Base.Dict.{Eq, string_eq}
use tail_kvm.ScreenSpace.Types.{Edge, opposite}

pub edge_eq : Edge → Edge → Bool
edge_eq Edge.left Edge.left = true
edge_eq Edge.right Edge.right = true
edge_eq Edge.top Edge.top = true
edge_eq Edge.bottom Edge.bottom = true
edge_eq _ _ = false

pub edge_eq_iff : (e f : Edge) → (edge_eq e f ≡ true) ↔ (e ≡ f)
unfolding edge_eq
edge_eq_iff e f = ground arith

-- The key `(String, Edge)` of the link map.
abbrev pub Port : Type 0
Port = String × Edge

unfoldable pub port_beq : Port → Port → Bool
unfolding edge_eq
port_beq (s, e) (t, f) = string_eq.beq s t && edge_eq e f

pub port_beq_iff : (p q : Port) → (port_beq p q ≡ true) ↔ (p ≡ q)
unfolding port_beq
port_beq_iff (s, e) (t, f) = ground (arith, string_eq.beq_iff s t, edge_eq_iff e f)

instance abbrev pub port_eq : Eq Port
port_eq = record { beq = port_beq; beq_iff = port_beq_iff }

pub record LayoutGraph : Type 0 where
  pub links : List (Port × String)

unfoldable pub new : LayoutGraph
new = record { links = [] }

unfoldable pub link : LayoutGraph → String → Edge → String → LayoutGraph
link g a edge b = record {
  links = Dict.insert (b, opposite edge) a (Dict.insert (a, edge) b g.links);
}

unfoldable pub neighbor : LayoutGraph → String → Edge → Option String
neighbor g screen edge = Dict.lookup (screen, edge) g.links

unfoldable pub link_count : LayoutGraph → ℕ
link_count g = length g.links
