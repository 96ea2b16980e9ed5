-- ===== src/Manifest/Graph.antt =====
-- `GenerateDotGraph` of playground/manifest.go, and `FindLog` on the text of a log.
use builder_playground.Prelude.{
  String, List, [], ◌∷◌, ◌⊕◌, if◌then◌else◌, Result, ok, err, decimal, join, split, contains_text,
  replace_all,
}
use builder_playground.Service.{Service, DependsOn}
use builder_playground.Service.FirstPass.{Port, NodeRef}

-- Names without hyphens, for DOT.
unfoldable pub node_name : String → String
unfolding replace_all
node_name name = replace_all name "-" "_"

abbrev pub port_names : List Port → List String
port_names [] = []
port_names (p ∷ ps) = (p.name ⊕ ":" ⊕ decimal p.port) ∷ port_names ps

abbrev pub port_label : List String → String
port_label [] = ""
port_label (p ∷ ps) = "|{" ⊕ join (p ∷ ps) "|" ⊕ "}"

unfoldable pub node_line : Service → String
unfolding node_name
node_line ss =
    "  " ⊕ node_name ss.name ⊕ " [label=\"" ⊕ ss.name ⊕ port_label (port_names ss.ports) ⊕ "\"];\n"

abbrev pub edge_line : String → NodeRef → String
edge_line name ref =
    "  "
    ⊕ node_name name
    ⊕ " -> "
    ⊕ node_name ref.service
    ⊕ " [label=\""
    ⊕ ref.port_label
    ⊕ "\"];\n"

abbrev pub depends_line : String → DependsOn → String
depends_line name dep =
    "  "
    ⊕ node_name name
    ⊕ " -> "
    ⊕ node_name dep.name
    ⊕ " [style=dashed, color=gray, constraint=true, label=\"depends_on\"];\n"

unfoldable pub node_lines : List Service → String
unfolding node_line
node_lines [] = ""
node_lines (ss ∷ services) = node_line ss ⊕ node_lines services

abbrev pub each_ref : String → List NodeRef → String → String
each_ref name [] rest = rest
each_ref name (ref ∷ refs) rest = edge_line name ref ⊕ each_ref name refs rest

unfoldable pub edge_lines : List Service → String
unfolding node_name
edge_lines [] = ""
edge_lines (ss ∷ services) = each_ref ss.name ss.node_refs (edge_lines services)

abbrev pub each_dep : String → List DependsOn → String → String
each_dep name [] rest = rest
each_dep name (dep ∷ deps) rest = depends_line name dep ⊕ each_dep name deps rest

unfoldable pub depends_lines : List Service → String
unfolding node_name
depends_lines [] = ""
depends_lines (ss ∷ services) = each_dep ss.name ss.depends_on (depends_lines services)

-- `GenerateDotGraph`
unfoldable pub generate_dot_graph : List Service → String
unfolding node_lines edge_lines depends_lines
generate_dot_graph services =
    "digraph G {\n"
    ⊕ "  rankdir=LR;\n"
    ⊕ "  node [shape=record];\n\n"
    ⊕ node_lines services
    ⊕ "\n"
    ⊕ edge_lines services
    ⊕ depends_lines services
    ⊕ "}\n"

unfoldable pub find_line : String → List String → Result String String
find_line pattern [] = err ("log pattern " ⊕ pattern ⊕ " not found")
find_line pattern (line ∷ lines) =
    if contains_text line pattern then ok line else find_line pattern lines

-- `FindLog`, on the text of the log.
unfoldable pub find_log : String → String → Result String String
unfolding find_line split
find_log logs pattern = find_line pattern (split logs b'\n')
