-- ===== src/Tcp/Header/Options.antt =====
-- `ParseOptions` ends on all bytes, and reads back what the loop of `Marshal` writes.
use mathlib.Core.List.{append_assoc}
use gonet.Prelude.{
  ℕ, zero, suc, ◌+◌, ◌-◌, ◌≤◌, ◌<◌, ◌≡◌, refl, ap, ◌∙◌, ◌≢◌, ◌⊎◌, inl, inr, List, [], ◌∷◌, ◌++◌,
  arith, le→ltb_false, ne→==_false, length, drop, All, length-append, length-drop, take-append,
  drop-append, Result, ok, err, panic, ◌>>=◌,
}
use gonet.Tcp.Header.{
  after, TcpOption, Error, Next, stop, fail, out_of_range, take_option, next_option, options_loop,
  parse_options, encode_options,
}

-- What a round takes is shorter than what was left.
next_option-shorter :
    (bytes : List ℕ) (opt : TcpOption) (rest : List ℕ)
    → next_option bytes ≡ take_option opt rest
    → length rest < length bytes
unfolding next_option
next_option-shorter [] opt rest e = cc
next_option-shorter (kind ∷ []) opt rest e = ground arith
next_option-shorter (kind ∷ len ∷ body) opt rest e =
    ground (arith, length-drop len (kind ∷ len ∷ body))

-- No round slices out of range.
next_option-inside : (bytes : List ℕ) → next_option bytes ≢ out_of_range
unfolding next_option
next_option-inside [] e = cc
next_option-inside (kind ∷ []) e = ground arith
next_option-inside (kind ∷ len ∷ body) e = ground arith

Next-cases :
    (n : Next)
    → (n ≡ stop)
      ⊎ ((e : Error) × (n ≡ fail e))
      ⊎ (n ≡ out_of_range)
      ⊎ ((opt : TcpOption) × (rest : List ℕ) × (n ≡ take_option opt rest))
Next-cases stop = inl refl
Next-cases (fail e) = inr (inl (e, refl))
Next-cases out_of_range = inr (inr (inl refl))
Next-cases (take_option opt rest) = inr (inr (inr (opt, rest, refl)))

consed-ne-panic :
    (opt : TcpOption) (r : Result Error (List TcpOption))
    → r ≢ panic
    → (r >>= λ opts. ok (opt ∷ opts)) ≢ panic
consed-ne-panic opt (ok opts) h e = cc
consed-ne-panic opt (err x) h e = cc
consed-ne-panic opt panic h e = h refl

pub options_loop_step :
    (fuel : ℕ) (bytes : List ℕ) (n : Next)
    → next_option bytes ≡ n
    → options_loop (suc fuel) bytes ≡ after n (options_loop fuel)
unfolding options_loop
options_loop_step fuel bytes n e = ap (λ m. after m (options_loop fuel)) e

options_loop_last :
    (fuel : ℕ) (bytes : List ℕ) → next_option bytes ≡ stop → options_loop fuel bytes ≡ ok []
unfolding options_loop
options_loop_last zero bytes e = ap (λ m. after m (λ rest. panic)) e
options_loop_last (suc fuel) bytes e = ap (λ m. after m (options_loop fuel)) e

options_loop-ne-panic :
    (fuel : ℕ) (bytes : List ℕ) → length bytes ≤ fuel → options_loop fuel bytes ≢ panic
options_loop-ne-panic zero [] h = unfold options_loop next_option in λ e. cc
options_loop-ne-panic zero (b ∷ bytes) h = absurd (omega arith)
options_loop-ne-panic (suc fuel) bytes h = elim (Next-cases (next_option bytes)) [
  | inl stops ↦ rw (options_loop_step fuel bytes stop stops) (λ e. cc)
  | inr (inl (x, fails)) ↦ rw (options_loop_step fuel bytes (fail x) fails) (λ e. cc)
  | inr (inr (inl beyond)) ↦ absurd (next_option-inside bytes beyond)
  | inr (inr (inr (opt, rest, takes))) ↦
      rw (options_loop_step fuel bytes (take_option opt rest) takes) (
        consed-ne-panic opt (options_loop fuel rest) (
          options_loop-ne-panic fuel rest
            (omega (arith, next_option-shorter bytes opt rest takes))))
]

-- `ParseOptions` ends on every slice, within one round for each byte, and slices nothing out of range.
pub parse_options-ne-panic : (bytes : List ℕ) → parse_options bytes ≢ panic
unfolding parse_options
parse_options-ne-panic bytes = options_loop-ne-panic (length bytes) bytes (omega arith)

-- An option as it goes over the wire: a NOP of one byte, or a kind with its length and content.
abbrev pub IsOption : TcpOption → Type 0
IsOption opt =
    (opt.kind ≡ 1) × (opt.len ≡ 0) × (opt.content ≡ [])
    ⊎ (2 ≤ opt.kind) × (opt.len ≡ 2 + length opt.content)

next_option-sized :
    (kind len : ℕ) (content rest : List ℕ)
    → 2 ≤ kind
    → len ≡ 2 + length content
    → next_option (kind ∷ len ∷ (content ++ rest))
      ≡ take_option (record { kind = kind; len = len; content = content }) rest
unfolding next_option
next_option-sized kind len content rest k l = rw (
  ne→==_false kind 0 (omega arith),
  ne→==_false kind 1 (omega arith),
  le→ltb_false len 2 (omega arith),
  le→ltb_false (2 + length (content ++ rest)) len (omega (arith, length-append content rest)),
  take-append (len - 2) content rest (omega arith),
  le→ltb_false (length (kind ∷ len ∷ (content ++ rest))) len
      (omega (arith, length-append content rest)),
  past,
)
  where
    past : drop len (kind ∷ len ∷ (content ++ rest)) ≡ rest
    past = drop-append len (kind ∷ len ∷ content) rest (omega arith)

-- A round on the bytes of an option takes that option and leaves what follows.
next_option-encode :
    (opt : TcpOption) (opts : List TcpOption) (tail : List ℕ)
    → IsOption opt
    → next_option (encode_options (opt ∷ opts) ++ tail)
      ≡ take_option opt (encode_options opts ++ tail)
unfolding encode_options
next_option-encode opt opts tail (inl (nop, len, content)) = unfold next_option in ground arith
next_option-encode opt opts tail (inr (kind, len)) =
    rw (ne→==_false opt.kind 0 (omega arith), ne→==_false opt.kind 1 (omega arith))
      (ap (λ bytes. next_option (opt.kind ∷ opt.len ∷ bytes))
          (append_assoc opt.content (encode_options opts) tail)
        ∙ next_option-sized opt.kind opt.len opt.content (encode_options opts ++ tail) kind len)

options_loop-encode :
    (fuel : ℕ) (opts : List TcpOption) (tail : List ℕ)
    → length opts ≤ fuel
    → All IsOption opts
    → next_option tail ≡ stop
    → options_loop fuel (encode_options opts ++ tail) ≡ ok opts
options_loop-encode fuel [] tail h v e = unfold encode_options in options_loop_last fuel tail e
options_loop-encode zero (opt ∷ opts) tail h v e = absurd (omega arith)
options_loop-encode (suc fuel) (opt ∷ opts) tail h v e =
    options_loop_step fuel (encode_options (opt ∷ opts) ++ tail)
      (take_option opt (encode_options opts ++ tail)) (next_option-encode opt opts tail v.0)
    ∙ rw (options_loop-encode fuel opts tail (omega arith) v.1 e)

pub length-encode_options :
    (opts : List TcpOption) → All IsOption opts → length opts ≤ length (encode_options opts)
unfolding encode_options
length-encode_options [] v = omega arith
length-encode_options (opt ∷ opts) v =
    ground
      (arith, v.0, length-append opt.content (encode_options opts), length-encode_options opts v.1)

-- `ParseOptions` reads back the options that the loop of `Marshal` wrote, up to the end of the bytes
-- or an end-of-list byte.
pub parse_options-encode :
    (opts : List TcpOption) (tail : List ℕ)
    → All IsOption opts
    → next_option tail ≡ stop
    → parse_options (encode_options opts ++ tail) ≡ ok opts
unfolding parse_options
parse_options-encode opts tail v e =
    options_loop-encode (length (encode_options opts ++ tail)) opts tail
      (omega (arith, length-append (encode_options opts) tail, length-encode_options opts v)) v e
