-- ===== src/Template/Actions.antt =====
-- How the lexer reads the three forms of action that the package writes, each followed by `rest`.
use builder_playground.Prelude.{ℕ, String, List, [], ◌∷◌, ◌++◌, ◌≡◌, ◌∙◌, ◌⊕◌, decimal}
use builder_playground.Template.{
  Token, word, quoted, number, call, text, gap, after, in_number, prepend, scan, next_mode,
}
use builder_playground.Template.Laws.{IsQuotable, prepend-nil, scan-quoted, scan-decimal}

pub scan-space :
    (toks : List Token) (rest : String) → scan (after toks) (" " ⊕ rest) ≡ scan (gap toks) rest
unfolding scan next_mode
scan-space toks rest = prepend-nil _

pub scan-close :
    (toks : List Token) (rest : String)
    → scan (after toks) ("}}" ⊕ rest) ≡ prepend (call toks ∷ []) (scan text rest)
unfolding scan next_mode
scan-close toks rest = prepend-nil _

scan-close_number :
    (toks : List Token) (n : ℕ) (rest : String)
    → scan (in_number toks n) ("}}" ⊕ rest)
      ≡ prepend (call (toks ++ number n ∷ []) ∷ []) (scan text rest)
unfolding scan next_mode
scan-close_number toks n rest = prepend-nil _

scan-service :
    (rest : String) → scan text ("{{Service " ⊕ rest) ≡ scan (gap (word "Service" ∷ [])) rest
unfolding scan next_mode
scan-service rest = simp prepend-nil

scan-port : (rest : String) → scan text ("{{Port " ⊕ rest) ≡ scan (gap (word "Port" ∷ [])) rest
unfolding scan next_mode
scan-port rest = simp prepend-nil

scan-port_udp :
    (rest : String) → scan text ("{{PortUDP " ⊕ rest) ≡ scan (gap (word "PortUDP" ∷ [])) rest
unfolding scan next_mode
scan-port_udp rest = simp prepend-nil

-- A quoted operand and the space behind it.
scan-operand :
    (toks : List Token) (s rest : String)
    → IsQuotable s
    → scan (gap toks) ("\"" ⊕ s ⊕ "\" " ⊕ rest) ≡ scan (gap (toks ++ quoted s ∷ [])) rest
scan-operand toks s rest h = scan-quoted toks s (" " ⊕ rest) h ∙ scan-space _ rest

-- `{{Service "a" "b" "c" "d"}}`
pub scan-service_call :
    (a b c d rest : String)
    → IsQuotable a
    → IsQuotable b
    → IsQuotable c
    → IsQuotable d
    → scan text ("{{Service \"" ⊕ a ⊕ "\" \"" ⊕ b ⊕ "\" \"" ⊕ c ⊕ "\" \"" ⊕ d ⊕ "\"}}" ⊕ rest)
      ≡ prepend
          (call (word "Service" ∷ quoted a ∷ quoted b ∷ quoted c ∷ quoted d ∷ []) ∷ [])
          (scan text rest)
scan-service_call a b c d rest ha hb hc hd =
    scan-service ("\"" ⊕ a ⊕ "\" \"" ⊕ b ⊕ "\" \"" ⊕ c ⊕ "\" \"" ⊕ d ⊕ "\"}}" ⊕ rest)
    ∙ scan-operand _ a _ ha
    ∙ scan-operand _ b _ hb
    ∙ scan-operand _ c _ hc
    ∙ scan-quoted _ d _ hd
    ∙ scan-close _ rest

-- `{{Port "a" n}}`
pub scan-port_call :
    (a : String) (n : ℕ) (rest : String)
    → IsQuotable a
    → scan text ("{{Port \"" ⊕ a ⊕ "\" " ⊕ decimal n ⊕ "}}" ⊕ rest)
      ≡ prepend (call (word "Port" ∷ quoted a ∷ number n ∷ []) ∷ []) (scan text rest)
scan-port_call a n rest h =
    scan-port ("\"" ⊕ a ⊕ "\" " ⊕ decimal n ⊕ "}}" ⊕ rest)
    ∙ scan-operand _ a _ h
    ∙ scan-decimal _ n ("}}" ⊕ rest)
    ∙ scan-close_number _ n rest

-- `{{PortUDP "a" n}}`
pub scan-port_udp_call :
    (a : String) (n : ℕ) (rest : String)
    → IsQuotable a
    → scan text ("{{PortUDP \"" ⊕ a ⊕ "\" " ⊕ decimal n ⊕ "}}" ⊕ rest)
      ≡ prepend (call (word "PortUDP" ∷ quoted a ∷ number n ∷ []) ∷ []) (scan text rest)
scan-port_udp_call a n rest h =
    scan-port_udp ("\"" ⊕ a ⊕ "\" " ⊕ decimal n ⊕ "}}" ⊕ rest)
    ∙ scan-operand _ a _ h
    ∙ scan-decimal _ n ("}}" ⊕ rest)
    ∙ scan-close_number _ n rest
