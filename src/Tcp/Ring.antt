-- ===== src/Tcp/Ring.antt =====
-- The geometry of a byte ring, which pkg/tcpstack/recvbuf.go and pkg/tcpstack/sendbuf.go share:
-- a stretch of bytes that starts at an index and goes round at the end of the array.
use gotcp.Prelude.{
  ℕ, ◌+◌, ◌-◌, ◌≤◌, ◌<◌, ◌≡◌, List, ◌++◌, none, arith, ltb, leb, ◌&&◌, if◌then◌else◌, length, take,
  drop, get_elem?, copy_at, length-copy_at, length-append, length-take, length-drop, ◌∙◌,
}
use gotcp.Prelude.Pointwise.{
  list_ext, get_elem?-past, get_elem?-take, get_elem?-drop, get_elem?-append, get_elem?-copy_at,
}

-- An index that may have passed the end of the array once.
abbrev pub wrap : ℕ → ℕ → ℕ
wrap c i = if ltb i c then i else i - c

module _ {A : Type 0} where
  -- The `n` elements from index `h` on.
  unfoldable pub window : List A → ℕ → ℕ → List A
  window buf h n = take n (drop h buf ++ buf)

  -- `data` written from index `t` on, its tail at the front of the array.
  pub place : List A → ℕ → List A → List A
  place buf t src = copy_at (copy_at buf t src) 0 (drop (length buf - t) src)

  pub get_elem?-window :
      (buf : List A) (h n i : ℕ)
      → h < length buf
      → n ≤ length buf
      → get_elem? (window buf h n) i
        ≡ (if ltb i n then get_elem? buf (wrap (length buf) (h + i)) else none)
  unfolding window
  get_elem?-window buf h n i hh hn = ground (
    arith,
    get_elem?-take n (drop h buf ++ buf) i,
    get_elem?-append (drop h buf) buf i,
    get_elem?-drop h buf i,
    length-drop h buf,
    the_index,
  )
    where
      the_index : length buf ≤ h + i → i - (length buf - h) ≡ h + i - length buf
      the_index p = omega arith

  pub length-window :
      (buf : List A) (h n : ℕ) → h ≤ length buf → n ≤ length buf → length (window buf h n) ≡ n
  unfolding window
  length-window buf h n hh hn =
      omega (
        arith,
        length-take n (drop h buf ++ buf),
        length-append (drop h buf) buf,
        length-drop h buf,
      )

  pub length-place : (buf : List A) (t : ℕ) (src : List A) → length (place buf t src) ≡ length buf
  unfolding place
  length-place buf t src =
      length-copy_at (copy_at buf t src) 0 (drop (length buf - t) src) ∙ length-copy_at buf t src

  pub get_elem?-place :
      (buf : List A) (t : ℕ) (src : List A) (i : ℕ)
      → t ≤ length buf
      → length src ≤ length buf
      → i < length buf
      → get_elem? (place buf t src) i ≡ (
          if leb t i && ltb i (t + length src)
          then get_elem? src (i - t)
          else if ltb (i + length buf) (t + length src)
          then get_elem? src (i + length buf - t)
          else get_elem? buf i)
  unfolding place
  get_elem?-place buf t src i ht hs hi = ground (
    arith,
    get_elem?-copy_at (copy_at buf t src) 0 (drop (length buf - t) src) i,
    get_elem?-copy_at buf t src i,
    length-copy_at buf t src,
    length-drop (length buf - t) src,
    get_elem?-drop (length buf - t) src i,
    the_index,
  )
    where
      the_index : length buf - t + i ≡ i + length buf - t
      the_index = omega arith

  -- Taking from a stretch, and dropping from it.
  pub take-window : (buf : List A) (h n u : ℕ) → n ≤ u → take n (window buf h u) ≡ window buf h n
  unfolding window
  take-window buf h n u p = list_ext _ _ λ i. ground (
    arith,
    get_elem?-take n (take u (drop h buf ++ buf)) i,
    get_elem?-take u (drop h buf ++ buf) i,
    get_elem?-take n (drop h buf ++ buf) i,
  )

  pub drop-window :
      (buf : List A) (h n u : ℕ)
      → h < length buf
      → n ≤ u
      → u ≤ length buf
      → drop n (window buf h u) ≡ window buf (wrap (length buf) (h + n)) (u - n)
  drop-window buf h n u hh p hu = list_ext _ _ λ i. ground (
    arith,
    get_elem?-drop n (window buf h u) i,
    get_elem?-window buf h u (n + i) hh hu,
    get_elem?-window buf (wrap (length buf) (h + n)) (u - n) i,
    add_regroup i,
  )
    where
      add_regroup :
          (i : ℕ)
          → (h + (n + i) ≡ h + n + i)
            × (length buf ≤ h + n → h + n - length buf + i ≡ h + n + i - length buf)
      add_regroup i = (omega arith, λ q. omega arith)

  -- The two ways in which the code takes a stretch out of the array.
  pub window_in_order :
      (buf : List A) (h n : ℕ) → h + n ≤ length buf → take n (drop h buf) ≡ window buf h n
  unfolding window
  window_in_order buf h n p = list_ext _ _ λ i. ground (
    arith,
    get_elem?-take n (drop h buf) i,
    get_elem?-take n (drop h buf ++ buf) i,
    get_elem?-append (drop h buf) buf i,
    length-drop h buf,
  )

  pub window_wrapped :
      (buf : List A) (h n : ℕ)
      → h ≤ length buf
      → length buf ≤ h + n
      → n ≤ length buf
      → drop h buf ++ take (h + n - length buf) buf ≡ window buf h n
  unfolding window
  window_wrapped buf h n hh p hn = list_ext _ _ λ i. ground (
    arith,
    get_elem?-append (drop h buf) (take (h + n - length buf) buf) i,
    get_elem?-take (h + n - length buf) buf (i - length (drop h buf)),
    get_elem?-take n (drop h buf ++ buf) i,
    get_elem?-append (drop h buf) buf i,
    length-drop h buf,
  )

  -- The two ways in which the code writes into the array.
  pub place_fits :
      (buf : List A) (t : ℕ) (src : List A)
      → t + length src ≤ length buf
      → copy_at buf t src ≡ place buf t src
  unfolding place
  place_fits buf t src p = list_ext _ _ λ i. ground (
    arith,
    get_elem?-copy_at (copy_at buf t src) 0 (drop (length buf - t) src) i,
    length-drop (length buf - t) src,
  )

  pub place_wrapped :
      (buf : List A) (t : ℕ) (src : List A)
      → t ≤ length buf
      → length buf < t + length src
      → copy_at (copy_at buf t (take (length buf - t) src)) 0 (drop (length buf - t) src)
        ≡ place buf t src
  unfolding place
  place_wrapped buf t src ht p = list_ext _ _ λ i. ground (
    arith,
    get_elem?-copy_at (copy_at buf t (take r src)) 0 (drop r src) i,
    get_elem?-copy_at (copy_at buf t src) 0 (drop r src) i,
    get_elem?-copy_at buf t (take r src) i,
    get_elem?-copy_at buf t src i,
    get_elem?-take r src (i - t),
    length-take r src,
    length-copy_at buf t src,
    length-copy_at buf t (take r src),
  )
    where
      r : ℕ
      r = length buf - t

  -- Writing just past a stretch extends it.
  pub window-place :
      (buf : List A) (h u : ℕ) (src : List A)
      → h < length buf
      → u + length src ≤ length buf
      → window (place buf (wrap (length buf) (h + u)) src) h (u + length src)
        ≡ window buf h u ++ src
  window-place buf h u src hh p = list_ext _ _ λ i. ground (
    arith,
    get_elem?-window (place buf t src) h (u + length src) i,
    length-place buf t src,
    get_elem?-append (window buf h u) src i,
    length-window buf h u,
    get_elem?-window buf h u i,
    get_elem?-place buf t src (wrap (length buf) (h + i)),
    get_elem?-past src (i - u),
    the_index i,
  )
    where
      t : ℕ
      t = wrap (length buf) (h + u)

      the_index :
          (i : ℕ)
          → (u ≤ i → h + i - (h + u) ≡ i - u)
            × (u ≤ i → length buf ≤ h + u → h + i - length buf - (h + u - length buf) ≡ i - u)
            × (u ≤ i → length buf ≤ h + i → h + i - length buf + length buf - (h + u) ≡ i - u)
      the_index i = (λ q. omega arith, λ q q'. omega arith, λ q q'. omega arith)
