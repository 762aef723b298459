-- ===== src/Conversation/AutoLink/Laws.antt =====
-- What stripping does to a text made of plain pieces and Slack links.
use Prim.Native.Char.{Char}
use text.Mathlib.TextLemmas.{nil-append, cons-append, append_assoc}
use crossplane_provider_slac.Base.{
  ℕ, suc, ◌+◌, ◌≡◌, ◌≢◌, refl, ap, ◌∙◌, true, false, some, List, [], ◌∷◌, String, ◌<>◌, code, arith,
}
use crossplane_provider_slac.Base.Text.{has_char}
use crossplane_provider_slac.Conversation.AutoLink.{
  ends_group, span_group, skip_label, length, link_at, strip_from, strip_slack_auto_links,
}

-- A piece of a text as Slack returns it.
pub data Segment : Type 0 where
  words : String → Segment
  link : String → Segment
  labelled : String → String → Segment

-- How Slack writes a piece.
abbrev pub encoded : Segment → String
encoded (words t) = t
encoded (link u) = String.◌∷◌ "<" (u <> ">")
encoded (labelled u l) = String.◌∷◌ "<" (u <> String.◌∷◌ "|" (l <> ">"))

-- What the user wrote.
abbrev pub plain_text : Segment → String
plain_text (words t) = t
plain_text (link u) = u
plain_text (labelled u l) = u

abbrev pub IsLink : String → Type 0
IsLink u = (u ≢ "") × (has_char b'|' u ≡ false) × (has_char b'>' u ≡ false)

abbrev pub IsSegment : Segment → Type 0
IsSegment (words t) = has_char b'<' t ≡ false
IsSegment (link u) = IsLink u
IsSegment (labelled u l) = IsLink u × (has_char b'>' l ≡ false)

strip_from-words :
    (t rest : String) → has_char b'<' t ≡ false → strip_from 0 (t <> rest) ≡ t <> strip_from 0 rest
unfolding strip_from has_char
strip_from-words String.[] rest h = rw (nil-append, nil-append)
strip_from-words (String.◌∷◌ c t) rest h =
    rw (cons-append, cons-append) (ground (arith, strip_from-words t rest))

-- What is counted down is dropped.
strip_from-append : (a b : String) (n : ℕ) → strip_from (length a + n) (a <> b) ≡ strip_from n b
unfolding strip_from length
strip_from-append String.[] b n = rw (nil-append) (ground arith)
strip_from-append (String.◌∷◌ c a) b n = rw cons-append (ground (arith, strip_from-append a b n))

span_group-append :
    (u rest : String) (c : Char)
    → has_char b'|' u ≡ false
    → has_char b'>' u ≡ false
    → ends_group (code c) ≡ true
    → span_group (u <> String.◌∷◌ c rest) ≡ (u, String.◌∷◌ c rest)
unfolding span_group has_char
span_group-append String.[] rest c h k e = rw nil-append (ground arith)
span_group-append (String.◌∷◌ d u) rest c h k e =
    rw cons-append (ground (arith, span_group-append u rest c))

skip_label-append :
    (l rest : String)
    → has_char b'>' l ≡ false
    → skip_label (l <> String.◌∷◌ ">" rest) ≡ some (length l + 1)
unfolding skip_label has_char length
skip_label-append String.[] rest h = rw nil-append refl
skip_label-append (String.◌∷◌ c l) rest h =
    rw cons-append (ground (arith, skip_label-append l rest))

link_at-link :
    (u rest : String) → IsLink u → link_at (u <> String.◌∷◌ ">" rest) ≡ some (u, length u + 1)
unfolding link_at
link_at-link String.[] rest h = absurd (h.0 refl)
link_at-link (String.◌∷◌ c u) rest h =
    rw (span_group-append (String.◌∷◌ c u) rest ">" h.1 h.2 (ground arith)) refl

link_at-labelled :
    (u l rest : String)
    → IsLink u
    → has_char b'>' l ≡ false
    → link_at (u <> String.◌∷◌ "|" (l <> String.◌∷◌ ">" rest))
      ≡ some (u, length u + suc (length l + 1))
unfolding link_at
link_at-labelled String.[] l rest h k = absurd (h.0 refl)
link_at-labelled (String.◌∷◌ c u) l rest h k =
    rw (span_group-append (String.◌∷◌ c u) (l <> String.◌∷◌ ">" rest) "|" h.1 h.2 (ground arith))
      (rw (skip_label-append l rest k) refl)

append_close : (u rest : String) → (u <> ">") <> rest ≡ u <> String.◌∷◌ ">" rest
append_close u rest =
    append_assoc u ">" rest
    ∙ ap (◌<>◌ u) (cons-append ">" "" rest ∙ ap (String.◌∷◌ ">") (nil-append rest))

strip_from-link :
    (s group : String) (n : ℕ)
    → link_at s ≡ some (group, n)
    → strip_from 0 (String.◌∷◌ "<" s) ≡ group <> strip_from n s
unfolding strip_from
strip_from-link s group n e = rw (e, strip_from) refl

strip_from-segment :
    (seg : Segment) (rest : String)
    → IsSegment seg
    → strip_from 0 (encoded seg <> rest) ≡ plain_text seg <> strip_from 0 rest
unfolding strip_from
strip_from-segment (words t) rest h = strip_from-words t rest h
strip_from-segment (link u) rest h =
    rw (cons-append, append_close)
      (strip_from-link _ u (length u + 1) (link_at-link u rest h)
        ∙ ap (◌<>◌ u) (strip_from-append u (String.◌∷◌ ">" rest) 1))
strip_from-segment (labelled u l) rest h =
    rw (cons-append, append_assoc, cons-append, append_close)
      (strip_from-link _ u _ (link_at-labelled u l rest h.0 h.1)
        ∙ ap (◌<>◌ u) (
            strip_from-append u _ (suc (length l + 1))
            ∙ strip_from-append l (String.◌∷◌ ">" rest) 1))

abbrev pub encoded_all : List Segment → String
encoded_all [] = ""
encoded_all (seg ∷ segs) = encoded seg <> encoded_all segs

abbrev pub plain_text_all : List Segment → String
plain_text_all [] = ""
plain_text_all (seg ∷ segs) = plain_text seg <> plain_text_all segs

abbrev pub AreSegments : List Segment → Type 0
AreSegments [] = Unit
AreSegments (seg ∷ segs) = IsSegment seg × AreSegments segs

-- Stripping inverts Slack's link formatting: of a text whose plain pieces have no <, whose links are
-- not empty and have no | or >, and whose labels have no >, it keeps the plain pieces and puts each
-- link's target in the link's place.
pub strip-encoded_all :
    (segs : List Segment)
    → AreSegments segs
    → strip_slack_auto_links (encoded_all segs) ≡ plain_text_all segs
unfolding strip_slack_auto_links
strip-encoded_all [] h = refl
strip-encoded_all (seg ∷ segs) h =
    strip_from-segment seg (encoded_all segs) h.0
    ∙ ap (◌<>◌ (plain_text seg)) (strip-encoded_all segs h.1)
