-- ===== src/Ip/Parser/Words.antt =====
-- The flags of a TCP packet, read back from its `Summary`.
use gonet.Prelude.{
  ℕ, ◌≡◌, refl, ap, ◌∙◌, ◌≢◌, Bool, false, ◌||◌, some, List, [], ◌∷◌, ◌++◌, arith, ◌==◌,
  if◌then◌else◌, ne→==_false, All, All-append,
}
use gonet.Prelude.Net.{same_bytes}
use gonet.Ip.Parser.{
  TcpLayer, ParsedPacket, Printer, flag_if, flag_words, join, summary_line, with_port, tcp_info,
  summary_of, summary,
}

-- The text behind the first byte `c`.
abbrev pub behind : ℕ → List ℕ → List ℕ
behind c [] = []
behind c (x ∷ xs) = if x == c then xs else behind c xs

-- The text in front of the first byte `c`.
abbrev pub until : ℕ → List ℕ → List ℕ
until c [] = []
until c (x ∷ xs) = if x == c then [] else x ∷ until c xs

abbrev onto : ℕ → List (List ℕ) → List (List ℕ)
onto x [] = (x ∷ []) ∷ []
onto x (word ∷ words) = (x ∷ word) ∷ words

-- The words of a text with commas.
abbrev pub split : List ℕ → List (List ℕ)
split [] = [] ∷ []
split (x ∷ xs) = let rest = split xs in if x == 44 then [] ∷ rest else onto x rest

abbrev has : List ℕ → List (List ℕ) → Bool
has word [] = false
has word (x ∷ xs) = same_bytes word x || has word xs

-- The words between the brackets of a text.
abbrev pub bracketed : List ℕ → List (List ℕ)
bracketed text = split (until 93 (behind 91 text))

-- Which flags stand in a list of words.
abbrev pub Flags : Type 0
Flags = Bool × Bool × Bool × Bool × Bool × Bool

abbrev pub flags_in : List (List ℕ) → Flags
flags_in words = (
  has (83 ∷ 89 ∷ 78 ∷ []) words,
  has (65 ∷ 67 ∷ 75 ∷ []) words,
  has (70 ∷ 73 ∷ 78 ∷ []) words,
  has (82 ∷ 83 ∷ 84 ∷ []) words,
  has (80 ∷ 83 ∷ 72 ∷ []) words,
  has (85 ∷ 82 ∷ 71 ∷ []) words,
)

abbrev pub flags_of : TcpLayer → Flags
flags_of t = (t.syn, t.ack, t.fin, t.rst, t.psh, t.urg)

-- The words of six flags, as `flag_words` has them.
abbrev words_of : Bool → Bool → Bool → Bool → Bool → Bool → List (List ℕ)
words_of syn ack fin rst psh urg = flag_words (record {
  src_port = 0;
  dst_port = 0;
  seq = 0;
  syn = syn;
  ack = ack;
  fin = fin;
  rst = rst;
  psh = psh;
  urg = urg;
  segment = [];
})

reads :
    (syn ack fin rst psh urg : Bool) (rest : List ℕ)
    → flags_in (split (until 93 (join (words_of syn ack fin rst psh urg) ++ (93 ∷ rest))))
      ≡ (syn, ack, fin, rst, psh, urg)
unfolding flag_words flag_if join
reads syn ack fin rst psh urg rest = ground arith

-- Text without an opening bracket.
abbrev pub IsPlain : List ℕ → Type 0
IsPlain text = All (λ c. c ≢ 91) text

-- Addresses and numbers have no bracket in their text.
pub record IsPlainPrinter (print : Printer) : Type 0 where
  pub ip_plain : (ip : List ℕ) → IsPlain (print.ip_string ip)
  pub decimal_plain : (n : ℕ) → IsPlain (print.decimal n)

behind-plain : (xs ys : List ℕ) → IsPlain xs → behind 91 (xs ++ ys) ≡ behind 91 ys
behind-plain [] ys h = refl
behind-plain (x ∷ xs) ys h = rw (ne→==_false x 91 h.0) (behind-plain xs ys h.1)

with_port-IsPlain :
    (print : Printer)
    → IsPlainPrinter print
    → (ip : List ℕ) (port : ℕ) → IsPlain (with_port print ip port)
unfolding with_port
with_port-IsPlain print v ip port =
    All-append (λ c. c ≢ 91) (print.ip_string ip) (58 ∷ print.decimal port) (v.ip_plain ip)
      ((λ e. omega (arith, e)), v.decimal_plain port)

-- The summary of a packet with a TCP layer, where addresses and numbers print without a bracket,
-- names exactly the flags of the layer that are set: SYN, ACK, FIN, RST, PSH and URG are among the
-- words between its brackets just where their flag is.
pub summary-flags :
    (print : Printer) (p : ParsedPacket) (t : TcpLayer)
    → IsPlainPrinter print
    → p.tcp_layer ≡ some t
    → flags_in (bracketed (summary print p)) ≡ flags_of t
unfolding summary summary_of summary_line tcp_info flag_words
summary-flags print p t v is_tcp = rw is_tcp (
    ap (λ text. flags_in (split (until 93 text)))
      (behind-plain (with_port print p.src_ip t.src_port) _
          (with_port-IsPlain print v p.src_ip t.src_port)
        ∙ behind-plain (with_port print p.dst_ip t.dst_port) _
            (with_port-IsPlain print v p.dst_ip t.dst_port))
    ∙ reads t.syn t.ack t.fin t.rst t.psh t.urg _)
