-- ===== src/LayoutGraph/Links.antt =====
-- What `LayoutGraph::link` records, and when the adjacency stays symmetric.
use Prim.Native.String.{String}
use tail_kvm.Base.{◌≡◌, refl, ◌⊎◌, inl, inr, none, some, arith, if◌then◌else◌}
use tail_kvm.Base.Dict
use tail_kvm.Base.Dict.{Eq, string_eq, lookup-insert}
use tail_kvm.ScreenSpace.Types.{Edge, opposite}
use tail_kvm.LayoutGraph.Graph.{LayoutGraph, port_beq, port_beq_iff, port_eq, link, neighbor}

opposite-opposite : (e : Edge) → opposite (opposite e) ≡ e
unfolding opposite
opposite-opposite Edge.left = refl
opposite-opposite _ = refl

-- After `link a edge b` the screen across (a, edge) is `b`, the one across (b, the opposite edge) is
-- `a`, and every other side is as before. (Where both are one side, `a` was written last.)
pub neighbor-link :
    (g : LayoutGraph) (a b s : String) (edge f : Edge)
    → neighbor (link g a edge b) s f ≡ (
        if port_beq (b, opposite edge) (s, f)
        then some a
        else if port_beq (a, edge) (s, f)
        then some b
        else neighbor g s f)
unfolding neighbor link
neighbor-link g a b s edge f = rw (
  lookup-insert (b, opposite edge) (s, f) a (Dict.insert (a, edge) b g.links),
  lookup-insert (a, edge) (s, f) b g.links,
)

-- Whatever lies across an edge has the first screen across its opposite edge.
abbrev pub IsSymmetric : LayoutGraph → Type 0
IsSymmetric g =
    (s t : String) (f : Edge) → neighbor g s f ≡ some t → neighbor g t (opposite f) ≡ some s

-- A side that is free, or that has the given neighbour already.
abbrev pub IsFreeFor : LayoutGraph → String → Edge → String → Type 0
IsFreeFor g s f t = (neighbor g s f ≡ none) ⊎ (neighbor g s f ≡ some t)

opposite_ne : (e : Edge) → opposite e ≡ e → ⊥
unfolding opposite
opposite_ne Edge.left p = cc
opposite_ne Edge.right p = cc
opposite_ne Edge.top p = cc
opposite_ne Edge.bottom p = cc

-- The three sources of an answer of the new graph.
link_cases :
    (g : LayoutGraph) (a b s t : String) (edge f : Edge)
    → neighbor (link g a edge b) s f ≡ some t
    → ((s ≡ b) × (f ≡ opposite edge) × (t ≡ a))
      ⊎ (((s ≡ a) × (f ≡ edge) × (t ≡ b)) ⊎ (neighbor g s f ≡ some t))
link_cases g a b s t edge f h = ground (
  arith,
  neighbor-link g a b s edge f,
  port_beq_iff (b, opposite edge) (s, f),
  port_beq_iff (a, edge) (s, f),
)

link_back :
    (g : LayoutGraph) (a b : String) (edge : Edge)
    → neighbor (link g a edge b) b (opposite edge) ≡ some a
link_back g a b edge = ground (
  arith,
  neighbor-link g a b b edge (opposite edge),
  port_beq_iff (b, opposite edge) (b, opposite edge),
)

link_there :
    (g : LayoutGraph) (a b : String) (edge : Edge) → neighbor (link g a edge b) a edge ≡ some b
link_there g a b edge = ground (
  arith,
  neighbor-link g a b a edge edge,
  port_beq_iff (a, edge) (a, edge),
  port_beq_iff (b, opposite edge) (a, edge),
  opposite_ne edge,
)

-- A neighbour of the old graph is one of the new graph, where the link took only free sides.
link_keeps :
    (g : LayoutGraph) (a b t s : String) (edge f : Edge)
    → IsFreeFor g a edge b
    → IsFreeFor g b (opposite edge) a
    → neighbor g t f ≡ some s
    → neighbor (link g a edge b) t f ≡ some s
link_keeps g a b t s edge f free_a free_b h = ground (
  arith,
  neighbor-link g a b t edge f,
  port_beq_iff (b, opposite edge) (t, f),
  port_beq_iff (a, edge) (t, f),
)

-- In a symmetric graph, a link between two sides that are free, or linked to each other already,
-- keeps the adjacency symmetric.
pub link-IsSymmetric :
    (g : LayoutGraph) (a b : String) (edge : Edge)
    → IsSymmetric g
    → IsFreeFor g a edge b
    → IsFreeFor g b (opposite edge) a
    → IsSymmetric (link g a edge b)
link-IsSymmetric g a b edge sym_g free_a free_b s t f h = elim (link_cases g a b s t edge f h) [
  | inl (es, ef, et) ↦ rw (es, ef, et, opposite-opposite edge) (link_there g a b edge)
  | inr (inl (es, ef, et)) ↦ rw (es, ef, et) (link_back g a b edge)
  | inr (inr old) ↦ link_keeps g a b t s edge (opposite f) free_a free_b (sym_g s t f old)
]
