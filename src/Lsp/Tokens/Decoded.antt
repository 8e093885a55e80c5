-- ===== src/Lsp/Tokens/Decoded.antt =====
-- internal/lsp/semantictokens/semantictokens.go: what a client reads from the numbers.
use regal.Base.{
  ℕ, ◌+◌, ◌^◌, ◌≤◌, ◌<◌, ◌≡◌, refl, ap, ◌⊎◌, inl, inr, Bool, true, false, List, [], ◌∷◌, ◌++◌,
  arith, if◌then◌else◌, Bool-cases, All, All-append, ◌==◌, nat_eq,
}
use regal.Lsp.Tokens.{
  Token, SemanticTokensResult, before, insert_token, sort_tokens, minus, encode, full,
}

-- A client adds the differences up, as the protocol says, without a bound.
unfoldable pub decode : (prev_line prev_col : ℕ) → List ℕ → List Token
decode prev_line prev_col (dl ∷ dc ∷ n ∷ ty ∷ m ∷ rest) =
    let line = prev_line + dl in
    let col = if dl == 0 then prev_col + dc else dc in
    record { line = line; col = col; length = n; type = ty; modifiers = m } ∷ decode line col rest
decode prev_line prev_col _ = []

abbrev pub IsUint32 : Token → Type 0
IsUint32 t = (t.line < 2 ^ 32) × (t.col < 2 ^ 32)

-- Every token is at or behind the position before it.
abbrev pub IsOrderedFrom : (line col : ℕ) → List Token → Type 0
IsOrderedFrom line col [] = Unit
IsOrderedFrom line col (t ∷ ts) =
    ((line < t.line) ⊎ ((line ≡ t.line) × (col ≤ t.col))) × IsOrderedFrom t.line t.col ts

decode-encode :
    (line col : ℕ) (ts : List Token)
    → line < 2 ^ 32
    → col < 2 ^ 32
    → All IsUint32 ts
    → IsOrderedFrom line col ts
    → decode line col (encode line col ts) ≡ ts
unfolding decode encode
decode-encode line col [] hl hc u o = refl
decode-encode line col (t ∷ ts) hl hc ((ul, uc), us) (inl below, os) =
    let later = decode-encode t.line t.col ts ul uc us os in
    let down : line + minus t.line line ≡ t.line = omega (arith, below, hl, ul) in
    let moved : (minus t.line line == 0) ≡ false = ground (arith, below, hl, ul) in
    rw (moved, down) (ap (λ l. t ∷ l) later)
decode-encode line col (t ∷ ts) hl hc ((ul, uc), us) (inr (same, behind), os) =
    let later = decode-encode t.line t.col ts ul uc us os in
    let down : line + minus t.line line ≡ t.line = omega (arith, same, hl, ul) in
    let stays : (minus t.line line == 0) ≡ true = ground (arith, same, hl, ul) in
    let along : col + minus t.col col ≡ t.col = omega (arith, behind, hc, uc) in
    rw (stays, down, along) (ap (λ l. t ∷ l) later)

-- The least token of an ordered list comes first.
abbrev AtOrBehind : (line col : ℕ) → Token → Type 0
AtOrBehind line col t = (line < t.line) ⊎ ((line ≡ t.line) × (col ≤ t.col))

insert-IsOrderedFrom :
    (line col : ℕ) (a : Token) (ts : List Token)
    → AtOrBehind line col a
    → IsOrderedFrom line col ts
    → IsOrderedFrom line col (insert_token a ts)
unfolding insert_token before
insert-IsOrderedFrom line col a [] h o = (h, tt)
insert-IsOrderedFrom line col a (b ∷ bs) h (hb, ob) = elim (Bool-cases (before b a)) [
  | inl less ↦ rw less (hb, insert-IsOrderedFrom b.line b.col a bs (ground (arith, less)) ob)
  | inr not_less ↦ rw not_less (h, (ground (arith, not_less), ob))
]

sort_tokens-IsOrderedFrom : (ts : List Token) → IsOrderedFrom 0 0 (sort_tokens ts)
unfolding sort_tokens
sort_tokens-IsOrderedFrom [] = tt
sort_tokens-IsOrderedFrom (t ∷ ts) =
    insert-IsOrderedFrom 0 0 t (sort_tokens ts) (ground arith) (sort_tokens-IsOrderedFrom ts)

-- How many tokens a test holds of.
abbrev pub count : (Token → Bool) → List Token → ℕ
count p [] = 0
count p (t ∷ ts) = (if p t then 1 else 0) + count p ts

count-insert :
    (p : Token → Bool) (a : Token) (ts : List Token)
    → count p (insert_token a ts) ≡ count p (a ∷ ts)
unfolding insert_token
count-insert p a [] = refl
count-insert p a (b ∷ bs) = elim (Bool-cases (before b a)) [
  | inl less ↦ rw less (omega (arith, count-insert p a bs))
  | inr not_less ↦ rw not_less refl
]

count-sort : (p : Token → Bool) (ts : List Token) → count p (sort_tokens ts) ≡ count p ts
unfolding sort_tokens
count-sort p [] = refl
count-sort p (t ∷ ts) = omega (arith, count-insert p t (sort_tokens ts), count-sort p ts)

insert-All :
    (P : Token → Type 0) (a : Token) (ts : List Token) → P a → All P ts → All P (insert_token a ts)
unfolding insert_token
insert-All P a [] h hs = (h, tt)
insert-All P a (b ∷ bs) h (hb, hs) = elim (Bool-cases (before b a)) [
  | inl less ↦ rw less (hb, insert-All P a bs h hs)
  | inr not_less ↦ rw not_less (h, (hb, hs))
]

sort-All : (P : Token → Type 0) (ts : List Token) → All P ts → All P (sort_tokens ts)
unfolding sort_tokens
sort-All P [] h = tt
sort-All P (t ∷ ts) (h, hs) = insert-All P t (sort_tokens ts) h (sort-All P ts hs)

-- What a client reads from the numbers are the tokens of the three lists, each as often as it is in
-- them, in the order of their lines and columns, if these fit a `uint32`: no difference wraps round.
pub full-decodes :
    (result : SemanticTokensResult)
    → All IsUint32 result.package_tokens
    → All IsUint32 result.vars
    → All IsUint32 result.import_tokens
    → (tokens : List Token) × (decode 0 0 (full result) ≡ tokens)
      × IsOrderedFrom 0 0 tokens
      × ((p : Token → Bool)
          → count p tokens
            ≡ count p (result.package_tokens ++ (result.vars ++ result.import_tokens)))
unfolding full
full-decodes result hp hv hi =
    let all = result.package_tokens ++ (result.vars ++ result.import_tokens) in
    let small =
      sort-All IsUint32 all (
        All-append IsUint32 result.package_tokens _ hp (All-append IsUint32 result.vars _ hv hi)) in
    let ordered = sort_tokens-IsOrderedFrom all in
    (
      sort_tokens all,
      decode-encode 0 0 (sort_tokens all) (omega arith) (omega arith) small ordered,
      ordered,
      λ p. count-sort p all,
    )
