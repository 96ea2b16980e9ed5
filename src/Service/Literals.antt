-- ===== src/Service/Literals.antt =====
-- An argument that opens no template action adds neither ports nor references.
use builder_playground.Prelude.{
  String, List, [], ◌∷◌, ◌++◌, some, ◌≡◌, refl, sym, ap, ◌∙◌, ok, ◌>>=◌, ⊕-nil,
}
use mathlib.Core.List.{append-nil}
use mathlib.Core.Path.{fun_ext}
use builder_playground.Template.{text, scan, execute}
use builder_playground.Template.Laws.{IsLiteral, chars, scan-text}
use builder_playground.Service.{Service, noted, note_template, note_templates}
use builder_playground.Service.FirstPass.{Refs, funcs, run_template, executed}

pub scan-literal : (v : String) → IsLiteral v → scan text v ≡ some (chars v)
unfolding scan
scan-literal v h =
    ap (scan text) (sym (⊕-nil v)) ∙ scan-text v "" h ∙ ap some (append-nil (chars v))

pub execute-chars : (v : String) (refs : Refs) → execute funcs (chars v) refs ≡ some (v, refs)
unfolding execute
execute-chars String.[] refs = refl
execute-chars (String.◌∷◌ c v) refs = rw (execute-chars v refs) refl

note_refs-nil : (s : Service) → record s { node_refs = s.node_refs ++ [] } ≡ s
note_refs-nil s = λ i. record s { node_refs = append-nil s.node_refs i }

pub note_template-literal : (v : String) (s : Service) → IsLiteral v → note_template v s ≡ ok s
unfolding note_template
note_template-literal v s h =
    ap (λ o. run_template o >>= λ r. noted r s) (scan-literal v h)
    ∙ ap (λ o. executed o >>= λ r. noted r s) (execute-chars v _)
    ∙ ap ok (note_refs-nil s)

-- Such an argument can be left out where only the ports and references count.
pub note_templates-skip :
    (xs ys : List String) (v : String) (s : Service)
    → IsLiteral v
    → note_templates (xs ++ v ∷ ys) s ≡ note_templates (xs ++ ys) s
unfolding note_templates
note_templates-skip [] ys v s h = ap (λ r. r >>= note_templates ys) (note_template-literal v s h)
note_templates-skip (x ∷ xs) ys v s h =
    ap (λ f. note_template x s >>= f) (fun_ext λ s'. note_templates-skip xs ys v s' h)
