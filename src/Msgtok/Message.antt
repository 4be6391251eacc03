-- ===== src/Msgtok/Message.antt =====
-- src/msgtok.c: repeated calls of `msgtok_r` on a well-formed message.
use circ.Base.{
  ℕ, zero, suc, ◌+◌, ◌<◌, ◌≡◌, refl, ap, ◌∙◌, none, some, List, [], ◌∷◌, ◌++◌, Bytes, Ptr, drop,
  length, string_at, All, arith, drop-append, set-append, set-append_right, drop-append_right,
  length-append, append_assoc,
}
use native.Mathlib.Nat.{add-zero, zero-add}
use circ.Msgtok.{Token, skip_spaces, strstr_crlf, token_before, token_at, msgtok_r}
use circ.Msgtok.Line.{
  IsText, IsMiddle, Last, IsLast, last_text, colon, line, find_space-append, middle-IsText,
  c_string-text, find_space-eq-none, line_end, strstr_crlf-line, skip_spaces-line, middle-string,
  get_or-word, behind, trailing, word,
}

-- The loop `while (tok != NULL) { use tok; tok = msgtok_r(NULL, ...) }`, on fuel.
unfoldable pub cut : ℕ → Bytes → Ptr → List Bytes
cut zero buf saveptr = []
cut (suc f) buf saveptr =
    let t = msgtok_r buf none saveptr in
    elim t.tok [ none ↦ [] | some p ↦ string_at t.buf p ∷ cut f t.buf t.saveptr ]

-- One call at a parameter that a space ends.
token_before-middle :
    (pre w more : Bytes) (e : ℕ)
    → IsMiddle w
    → length w < e
    → skip_spaces more ≡ 0
    → token_before (pre ++ (w ++ (b' ' ∷ more))) (length pre) e ≡ record {
      tok = some (length pre);
      toklen = length w;
      saveptr = some (length pre + length w + 1);
      buf = pre ++ (w ++ (0 ∷ more));
    }
unfolding token_before
token_before-middle pre w more e m l s = rw (
  drop-append,
  get_or-word w (b' ' ∷ more) m.filled,
  m.no_colon,
  find_space-append w more e m.middle l,
  set-append_right pre (w ++ (b' ' ∷ more)) (length w) 0,
  set-append w b' ' 0 more,
  behind pre w more,
  s,
  add-zero,
)

-- One call at the last parameter.
token_before-last :
    (pre : Bytes) (last : Last) (more : Bytes)
    → IsLast last
    → token_before
        (pre ++ (colon last ++ (last_text last ++ (b'\r' ∷ more))))
        (length pre)
        (line_end [] last)
      ≡ record {
        tok = some (length pre + length (colon last));
        toklen = length (last_text last);
        saveptr = none;
        buf = pre ++ (colon last ++ (last_text last ++ (0 ∷ more)));
      }
unfolding token_before
token_before-last pre (trailing text) more h =
    rw
      (
        drop-append,
        set-append_right pre (b':' ∷ (text ++ (b'\r' ∷ more))) (1 + length text) 0,
        set-append_right (b':' ∷ []) (text ++ (b'\r' ∷ more)) (length text) 0,
        set-append text b'\r' 0 more,
      )
      (ground arith)
token_before-last pre (word w) more h = rw (
  zero-add (length w),
  drop-append,
  get_or-word w (b'\r' ∷ more) h.filled,
  h.no_colon,
  find_space-eq-none w more h.middle,
  zero-add (length w),
  set-append_right pre (w ++ (b'\r' ∷ more)) (length w) 0,
  set-append w b'\r' 0 more,
  add-zero,
)

token_at-found :
    (buf : Bytes) (str e : ℕ) (saveptr : Ptr)
    → strstr_crlf (drop str buf) ≡ some e
    → token_at buf str saveptr ≡ token_before buf str e
unfolding token_at
token_at-found buf str e saveptr h = rw (h, token_at)

-- The first call on a line, and the state in which it leaves the buffer.
token_at-middle :
    (w : Bytes) (ws : List Bytes) (pre : Bytes) (last : Last) (rest : Bytes) (saveptr : Ptr)
    → All IsMiddle (w ∷ ws)
    → IsLast last
    → token_at (pre ++ line (w ∷ ws) last rest) (length pre) saveptr ≡ record {
      tok = some (length pre);
      toklen = length w;
      saveptr = some (length pre + length w + 1);
      buf = pre ++ (w ++ (0 ∷ line ws last rest));
    }
token_at-middle w ws pre last rest saveptr hs h =
    token_at-found (pre ++ line (w ∷ ws) last rest) (length pre) (line_end (w ∷ ws) last) saveptr
      (rw drop-append (strstr_crlf-line (w ∷ ws) last rest hs h))
    ∙ token_before-middle pre w (line ws last rest) _ hs.0 (omega arith)
        (skip_spaces-line ws last rest hs.1 h)

token_at-last :
    (pre : Bytes) (last : Last) (rest : Bytes) (saveptr : Ptr)
    → IsLast last
    → token_at (pre ++ line [] last rest) (length pre) saveptr ≡ record {
      tok = some (length pre + length (colon last));
      toklen = length (last_text last);
      saveptr = none;
      buf = pre ++ (colon last ++ (last_text last ++ (0 ∷ b'\n' ∷ rest)));
    }
token_at-last pre last rest saveptr h =
    token_at-found (pre ++ line [] last rest) (length pre) (line_end [] last) saveptr
      (rw drop-append (strstr_crlf-line [] last rest tt h))
    ∙ token_before-last pre last (b'\n' ∷ rest) h

module _ (pre : Bytes) (last : Last) (rest : Bytes) (h : IsLast last) where
  pub next-middle :
      (w : Bytes) (ws : List Bytes)
      → All IsMiddle (w ∷ ws)
      → msgtok_r (pre ++ line (w ∷ ws) last rest) none (some (length pre)) ≡ record {
        tok = some (length pre);
        toklen = length w;
        saveptr = some (length (pre ++ (w ++ (0 ∷ []))));
        buf = (pre ++ (w ++ (0 ∷ []))) ++ line ws last rest;
      }
  unfolding msgtok_r
  next-middle w ws hs =
      let here : length pre + length w + 1 ≡ length (pre ++ (w ++ (0 ∷ []))) =
        omega (arith, length-append pre (w ++ (0 ∷ [])), length-append w (0 ∷ [])) in
      let moved : pre ++ (w ++ (0 ∷ line ws last rest))
          ≡ (pre ++ (w ++ (0 ∷ []))) ++ line ws last rest =
        simp append_assoc in
      token_at-middle w ws pre last rest _ hs h ∙ rw (here, moved)

  pub next-last : msgtok_r (pre ++ line [] last rest) none (some (length pre)) ≡ record {
    tok = some (length pre + length (colon last));
    toklen = length (last_text last);
    saveptr = none;
    buf = pre ++ (colon last ++ (last_text last ++ (0 ∷ b'\n' ∷ rest)));
  }
  unfolding msgtok_r
  next-last = token_at-last pre last rest _ h

  -- The string of the last parameter, in the buffer that its call leaves.
  pub last-string :
      string_at
        (pre ++ (colon last ++ (last_text last ++ (0 ∷ b'\n' ∷ rest))))
        (length pre + length (colon last))
      ≡ last_text last
  last-string =
      rw (drop-append_right pre, drop-append)
        (c_string-text (last_text last) _ (last-IsText last h))
    where
      last-IsText : (l : Last) → IsLast l → IsText (last_text l)
      last-IsText (trailing text) k = k
      last-IsText (word w) k = middle-IsText w k.middle

cut-step :
    (f : ℕ) (buf : Bytes) (saveptr : Ptr) (t : Token) (p : ℕ)
    → msgtok_r buf none saveptr ≡ t
    → t.tok ≡ some p
    → cut (suc f) buf saveptr ≡ string_at t.buf p ∷ cut f t.buf t.saveptr
unfolding cut
cut-step f buf saveptr t p h e = rw (h, cut, e) (rw h)

cut-end : (f : ℕ) (buf : Bytes) → cut f buf none ≡ []
unfolding cut msgtok_r
cut-end zero buf = refl
cut-end (suc f) buf = refl

-- On `<middle> ... <middle> <last> CRLF`, wherever it stands in the buffer and whatever follows,
-- the calls of `msgtok_r` up to the first NULL return each of the parameters in order, where more
-- calls are allowed than there are parameters before the last. The last parameter is a word, or
-- any text with no NUL and no CR behind a colon; the others have no space, NUL or CR in them and
-- no colon in front, and are not empty. A last one behind a colon is returned with its spaces and
-- without the colon.
pub cut-line :
    (ws : List Bytes) (pre : Bytes) (last : Last) (rest : Bytes) (fuel : ℕ)
    → All IsMiddle ws
    → IsLast last
    → length ws < fuel
    → cut fuel (pre ++ line ws last rest) (some (length pre)) ≡ ws ++ (last_text last ∷ [])
cut-line ws pre last rest zero hs h l = absurd (omega arith)
cut-line [] pre last rest (suc f) hs h l =
    cut-step f _ _ _ _ (next-last pre last rest h) refl ∙ rw (last-string pre last rest h, cut-end)
cut-line (w ∷ ws) pre last rest (suc f) hs h l =
    cut-step f _ _ _ _ (next-middle pre last rest h w ws hs) refl
    ∙ rw (cut-line ws (pre ++ (w ++ (0 ∷ []))) last rest f hs.1 h (omega arith))
        (ap (λ s. s ∷ (ws ++ (last_text last ∷ []))) (middle-string pre w (line ws last rest) hs.0))

-- The first call of a loop is given the buffer.
pub first-middle :
    (w : Bytes) (ws : List Bytes) (last : Last) (rest : Bytes) (saveptr : Ptr)
    → All IsMiddle (w ∷ ws)
    → IsLast last
    → msgtok_r (line (w ∷ ws) last rest) (some 0) saveptr ≡ record {
      tok = some 0;
      toklen = length w;
      saveptr = some (length (w ++ (0 ∷ [])));
      buf = (w ++ (0 ∷ [])) ++ line ws last rest;
    }
unfolding msgtok_r
first-middle w ws last rest saveptr hs h =
    let here : length w + 1 ≡ length (w ++ (0 ∷ [])) = omega (arith, length-append w (0 ∷ [])) in
    rw (skip_spaces-line (w ∷ ws) last rest hs h, zero-add)
      (token_at-middle w ws [] last rest _ hs h ∙ rw (zero-add, here, append_assoc))

-- Behind the last parameter there is NULL.
pub next-none :
    (buf : Bytes)
    → msgtok_r buf none none ≡ record { tok = none; toklen = 0; saveptr = none; buf = buf }
unfolding msgtok_r
next-none buf = refl
