-- ===== src/Request/Images/Limits.antt =====
-- The limits that the images of a request keep to.
use kiro_trust.Prelude.{
  ℕ, suc, ◌+◌, ◌≤◌, ◌≡◌, max, refl, sym, subst, true, not, Option, none, some, List, [], ◌∷◌, ◌++◌,
  length, length-append, ltb, leb, if_both, Result, ok, err, arith,
}
use kiro_trust.Text.{Text, Bytes, codes, text_eq}
use kiro_trust.Anthropic.Messages.{
  ImageSource, ContentBlock, MessageContent, ToolResultContent, absent, plain, blocks, listed,
  fields, content_of, is_kind, is_tool_result,
}
use kiro_trust.Request.Content.{filter, contains, extract_tool_result_text}
use kiro_trust.Request.Images.{
  max_images_per_request, max_image_bytes, image_formats, ImageError, unsupported_media_type, Image,
  Counted, continue_with, ◌>>=◌, give, last_part, tool_result, count_image, on_decoded, convert,
  convert_image, with_image, promote, promote_tool_result_images, noticed, scan_tool_result,
  scan_results, extract_tool_results, scan_block, scan_blocks, scan_current_message,
}

abbrev itself : List Image → List Image
itself is = is

abbrev pub images_of : {A : Type 0} → A × List Image → List Image
images_of (r, images) = images

module _ (base64 : Text → Option Bytes) where
  -- An image of a format in the list, whose data decode to 10 MiB at most.
  pub record Accepted (image : Image) : Type 0 where
    pub known_format : contains image_formats image.format ≡ true
    pub decoded : Bytes
    pub decodes : base64 image.bytes ≡ some decoded
    pub small : length decoded ≤ max_image_bytes

  abbrev pub AllAccepted : List Image → Type 0
  AllAccepted [] = Unit
  AllAccepted (i ∷ is) = Accepted i × AllAccepted is

  AllAccepted-append :
      (is js : List Image) → AllAccepted is → AllAccepted js → AllAccepted (is ++ js)
  AllAccepted-append [] js a b = b
  AllAccepted-append (i ∷ is) js (x, a) b = (x, AllAccepted-append is js a b)

  -- With `n` images counted before: all images are accepted, each is counted, and the count does
  -- not pass the limit unless `n` does.
  abbrev Within : ℕ → List Image → ℕ → Type 0
  Within n images n' =
      AllAccepted images × (n' ≡ n + length images) × (n' ≤ max n max_images_per_request)

  abbrev pub Admits : {A : Type 0} → (A → List Image) → ℕ → Result A ImageError × ℕ → Type 0
  Admits p n (err e, n') = Unit
  Admits p n (ok x, n') = Within n (p x) n'

  Within-append :
      (n n1 n2 : ℕ) (is js : List Image) → Within n is n1 → Within n1 js n2 → Within n (is ++ js) n2
  Within-append n n1 n2 is js (a, c, l) (b, d, k) =
      (AllAccepted-append is js a b, omega (arith, length-append is js), omega (arith, l, k))

  Within-none : (n : ℕ) → Within n [] n
  Within-none n = (tt, omega arith, omega arith)

  module _ {A C : Type 0} where
    Admits-map :
        (p : A → List Image) (r : C → List Image) (c : A → C) (n : ℕ) (m : Result A ImageError × ℕ)
        → ((x : A) → r (c x) ≡ p x)
        → Admits p n m
        → Admits r n (continue_with (λ x. give (c x)) m)
    Admits-map p r c n (err e, n') h a = tt
    Admits-map p r c n (ok x, n') h a = subst (λ is. Within n is n') (sym (h x)) a

  module _ {A B C : Type 0} where
    -- Two steps, whose images stand behind each other in the result.
    Admits-both :
        (p : A → List Image) (q : B → List Image) (r : C → List Image) (c : A → B → C)
        (k : Counted B) (n : ℕ) (m : Result A ImageError × ℕ)
        → ((x : A) (y : B) → r (c x y) ≡ p x ++ q y)
        → ((n : ℕ) → Admits q n (k n))
        → Admits p n m
        → Admits r n (continue_with (λ x. k >>= λ y. give (c x y)) m)
    Admits-both p q r c k n (err e, n') h b a = tt
    Admits-both p q r c k n (ok x, n') h b a = second (k n') (b n')
      where
        second :
            (s : Result B ImageError × ℕ)
            → Admits q n' s
            → Admits r n (continue_with (λ y. give (c x y)) s)
        second (err e, n2) b = tt
        second (ok y, n2) b =
            subst (λ is. Within n is n2) (sym (h x y)) (Within-append n n' n2 (p x) (q y) a b)

  abbrev one : Option Image → List Image
  one o = with_image o []

  Admits-count_image : (image : Image) (n : ℕ) → Accepted image → Admits one n (count_image image n)
  Admits-count_image image n a =
      if_both (Admits one n) (leb (suc n) max_images_per_request) (ok (some image), suc n) _
        (λ h. ((a, tt), omega arith, ground arith)) (λ _. tt)

  Admits-on_decoded :
      (o : Option Bytes) (image : Image) (n : ℕ)
      → base64 image.bytes ≡ o
      → contains image_formats image.format ≡ true
      → Admits one n (on_decoded o image n)
  Admits-on_decoded none image n e f = tt
  Admits-on_decoded (some decoded) image n e f =
      if_both (Admits one n) (ltb max_image_bytes (length decoded)) _ (count_image image n)
        (λ _. tt)
        (λ h.
          Admits-count_image image n
            (record { known_format = f; decoded = decoded; decodes = e; small = ground arith }))

  Admits-convert : (o : Option ImageSource) (n : ℕ) → Admits one n (convert base64 o n)
  Admits-convert none n = Within-none n
  Admits-convert (some src) n =
      let format = last_part src.media_type src.media_type in
      let image : Image = record { format = format; bytes = src.data_ } in
      if_both (Admits one n) (not (text_eq src.kind (codes "base64"))) (ok none, n) _
        (λ _. Within-none n)
        (λ _.
          if_both (Admits one n) (not (contains image_formats format))
            (err (unsupported_media_type src.media_type), n) (on_decoded (base64 src.data_) image n)
            (λ _. tt) (λ h. Admits-on_decoded (base64 src.data_) image n refl (ground arith)))

  one-append : (o : Option Image) (is : List Image) → with_image o is ≡ one o ++ is
  one-append none is = refl
  one-append (some i) is = refl

  module _ {V : Type 0} (decimal : ℕ → Text) where
    Admits-convert_image :
        (b : ContentBlock V) (n : ℕ) → Admits one n (convert_image base64 decimal b n)
    unfolding convert_image
    Admits-convert_image b n = Admits-convert (fields b).source n

    Admits-promote :
        (bs : List (ContentBlock V)) (n : ℕ) → Admits itself n (promote base64 decimal bs n)
    unfolding promote
    Admits-promote [] n = Within-none n
    Admits-promote (b ∷ bs) n =
        Admits-both one itself itself with_image (promote base64 decimal bs) n
          (convert_image base64 decimal b n) one-append (Admits-promote bs)
          (Admits-convert_image b n)

    Admits-promote_tool_result_images :
        (c : ToolResultContent V) (n : ℕ)
        → Admits itself n (promote_tool_result_images base64 decimal c n)
    unfolding promote_tool_result_images
    Admits-promote_tool_result_images absent n = Within-none n
    Admits-promote_tool_result_images (ToolResultContent.text t) n = Within-none n
    Admits-promote_tool_result_images (ToolResultContent.blocks bs) n =
        Admits-promote (filter (is_kind (codes "image")) (listed bs)) n

    Admits-scan_tool_result :
        (b : ContentBlock V) (n : ℕ) → Admits images_of n (scan_tool_result base64 decimal b n)
    unfolding scan_tool_result
    Admits-scan_tool_result b n =
        Admits-map itself images_of
          (λ promoted.
            (tool_result b (noticed decimal (extract_tool_result_text b) promoted), promoted))
          n (promote_tool_result_images base64 decimal (content_of b) n) (λ x. refl)
          (Admits-promote_tool_result_images (content_of b) n)

    Admits-scan_results :
        (bs : List (ContentBlock V)) (n : ℕ) → Admits images_of n (scan_results base64 decimal bs n)
    unfolding scan_results
    Admits-scan_results [] n = Within-none n
    Admits-scan_results (b ∷ bs) n =
        Admits-both images_of images_of images_of
          (λ (result, promoted) (results, images). (result ∷ results, promoted ++ images))
          (scan_results base64 decimal bs) n (scan_tool_result base64 decimal b n) (λ x y. refl)
          (Admits-scan_results bs) (Admits-scan_tool_result b n)

    Admits-scan_block :
        (b : ContentBlock V) (n : ℕ) → Admits images_of n (scan_block base64 decimal b n)
    Admits-scan_block b n =
        if_both (Admits images_of n) (is_tool_result b) _ _
          (λ _.
            Admits-map images_of images_of (λ (result, promoted). (result ∷ [], promoted)) n
              (scan_tool_result base64 decimal b n) (λ x. refl) (Admits-scan_tool_result b n))
          (λ _.
            if_both (Admits images_of n) (is_kind (codes "image") b) _ (ok ([], []), n)
              (λ _.
                Admits-map one images_of (λ o. ([], with_image o [])) n
                  (convert_image base64 decimal b n) (λ x. refl) (Admits-convert_image b n))
              (λ _. Within-none n))

    Admits-scan_blocks :
        (bs : List (ContentBlock V)) (n : ℕ) → Admits images_of n (scan_blocks base64 decimal bs n)
    unfolding scan_blocks
    Admits-scan_blocks [] n = Within-none n
    Admits-scan_blocks (b ∷ bs) n =
        Admits-both images_of images_of images_of
          (λ (results, images) (results', images'). (results ++ results', images ++ images'))
          (scan_blocks base64 decimal bs) n (scan_block base64 decimal b n) (λ x y. refl)
          (Admits-scan_blocks bs) (Admits-scan_block b n)

    -- For the messages of the history: the images of tool results that are let through have an
    -- accepted format and decode to 10 MiB at most, each is counted once, and the count does not
    -- pass 10 unless it had before.
    pub extract_tool_results-Admits :
        (content : MessageContent V) (n : ℕ)
        → Admits images_of n (extract_tool_results base64 decimal content n)
    unfolding extract_tool_results
    extract_tool_results-Admits (plain t) n = Within-none n
    extract_tool_results-Admits (blocks bs) n = Admits-scan_results (filter is_tool_result bs) n

    -- For the current message, its own images and those of its tool results: all that are let
    -- through have an accepted format and decode to 10 MiB at most, each is counted once, and the
    -- count does not pass 10 unless it had before.
    pub scan_current_message-Admits :
        (content : MessageContent V) (n : ℕ)
        → Admits images_of n (scan_current_message base64 decimal content n)
    unfolding scan_current_message
    scan_current_message-Admits (plain t) n = Within-none n
    scan_current_message-Admits (blocks bs) n = Admits-scan_blocks bs n
