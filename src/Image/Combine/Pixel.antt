-- ===== src/Image/Combine/Pixel.antt =====
-- What `image_combine` does to each pixel.
use fast.Prelude.{
  Bool, Bool-cases, List, Option, Option-cases, [], ap, arith, false, get_elem?, inl, inr, length,
  length-set, none, refl, set, some, subst, suc, sym, true, zero, ℕ, ◌+◌, ◌<◌, ◌==◌, ◌>>=◌, ◌∙◌,
  ◌∷◌, ◌≡◌, ◌≤◌, ◌⊎◌,
}
use fast.Image.{Doubles, Image, Pixels, double_data, pixel_count, uint16_data}
use fast.Image.Combine.{
  CombineOp, clamped, combine_loop, combine_op, double_at, image_combine, image_op_add,
  image_op_div, image_op_mul, image_op_sub, same_sizes, second_operand, store_pixel,
}

get_elem?-set_same :
    {A : Type 0} (a : List A) (i : ℕ) (v : A) → i < length a → get_elem? (set a i v) i ≡ some v
get_elem?-set_same [] i v h = absurd (omega arith)
get_elem?-set_same (x ∷ a) zero v h = refl
get_elem?-set_same (x ∷ a) (suc i) v h = get_elem?-set_same a i v (omega arith)

get_elem?-set_other :
    {A : Type 0} (a : List A) (i j : ℕ) (v : A)
    → (i == j) ≡ false
    → get_elem? (set a i v) j ≡ get_elem? a j
get_elem?-set_other [] i j v h = refl
get_elem?-set_other (x ∷ a) zero zero v h = absurd (ground (arith, h))
get_elem?-set_other (x ∷ a) zero (suc j) v h = refl
get_elem?-set_other (x ∷ a) (suc i) zero v h = refl
get_elem?-set_other (x ∷ a) (suc i) (suc j) v h = get_elem?-set_other a i j v (ground (arith, h))

get_elem?-some :
    {A : Type 0} (a : List A) (i : ℕ) → i < length a → (x : A) × (get_elem? a i ≡ some x)
get_elem?-some [] i h = absurd (omega arith)
get_elem?-some (x ∷ a) zero h = (x, refl)
get_elem?-some (x ∷ a) (suc i) h = get_elem?-some a i (omega arith)

module _ (numbers : Doubles) {Coords : Type 0} (coords_empty : Coords)
    (is_zero : numbers.Double → Bool) where
  abbrev pub count : Pixels numbers.Double → ℕ
  count (double_data a) = length a
  count (uint16_data a) = length a

  -- an element of the array, of either type
  abbrev pub element : Pixels numbers.Double → ℕ → Option (numbers.Double ⊎ ℕ)
  element (double_data a) i = get_elem? a i >>= λ x. some (inl x)
  element (uint16_data a) i = get_elem? a i >>= λ x. some (inr x)

  -- what a double is stored as
  abbrev pub stored : Pixels numbers.Double → numbers.Double → numbers.Double ⊎ ℕ
  stored (double_data a) x = inl x
  stored (uint16_data a) x = inr (clamped numbers coords_empty is_zero x)

  abbrev store : Pixels numbers.Double → ℕ → numbers.Double → Pixels numbers.Double
  store p d x = store_pixel numbers coords_empty is_zero p d x

  store-count :
      (p : Pixels numbers.Double) (d : ℕ) (x : numbers.Double) → count (store p d x) ≡ count p
  unfolding store_pixel
  store-count (double_data a) d x = length-set a d x
  store-count (uint16_data a) d x = length-set a d (clamped numbers coords_empty is_zero x)

  store-stored :
      (p : Pixels numbers.Double) (d : ℕ) (x y : numbers.Double)
      → stored (store p d x) y ≡ stored p y
  unfolding store_pixel
  store-stored (double_data a) d x y = refl
  store-stored (uint16_data a) d x y = refl

  store-same :
      (p : Pixels numbers.Double) (d : ℕ) (x : numbers.Double)
      → d < count p
      → element (store p d x) d ≡ some (stored p x)
  unfolding store_pixel
  store-same (double_data a) d x h = ap (λ o. o >>= λ y. some (inl y)) (get_elem?-set_same a d x h)
  store-same (uint16_data a) d x h =
      ap (λ o. o >>= λ y. some (inr y))
        (get_elem?-set_same a d (clamped numbers coords_empty is_zero x) h)

  store-other :
      (p : Pixels numbers.Double) (d k : ℕ) (x : numbers.Double)
      → (d == k) ≡ false
      → element (store p d x) k ≡ element p k
  unfolding store_pixel
  store-other (double_data a) d k x h =
      ap (λ o. o >>= λ y. some (inl y)) (get_elem?-set_other a d k x h)
  store-other (uint16_data a) d k x h =
      ap (λ o. o >>= λ y. some (inr y))
        (get_elem?-set_other a d k (clamped numbers coords_empty is_zero x) h)

  double_other :
      (p : Pixels numbers.Double) (d k : ℕ) (x : numbers.Double)
      → (d == k) ≡ false
      → double_at numbers coords_empty is_zero (store p d x) k
        ≡ double_at numbers coords_empty is_zero p k
  unfolding store_pixel double_at
  double_other (double_data a) d k x h = get_elem?-set_other a d k x h
  double_other (uint16_data a) d k x h =
      ap (λ o. o >>= λ y. some (numbers.of_uint16 y))
        (get_elem?-set_other a d k (clamped numbers coords_empty is_zero x) h)

  double-some :
      (p : Pixels numbers.Double) (d : ℕ)
      → d < count p
      → (x : numbers.Double) × (double_at numbers coords_empty is_zero p d ≡ some x)
  unfolding double_at
  double-some (double_data a) d h = get_elem?-some a d h
  double-some (uint16_data a) d h =
      let (x, e) = get_elem?-some a d h in
      (numbers.of_uint16 x, ap (λ o. o >>= λ y. some (numbers.of_uint16 y)) e)

  -- A second image has a pixel at each place.
  abbrev pub HasPixels : Option (Image numbers.Double Coords) → ℕ → Type 0
  HasPixels none n = Unit
  HasPixels (some second) n = n ≤ count second.pixels

  second-some :
      (val : numbers.Double) (second : Option (Image numbers.Double Coords)) (n d : ℕ)
      → HasPixels second n
      → d < n
      → (y : numbers.Double) × (second_operand numbers coords_empty is_zero val second d ≡ some y)
  unfolding second_operand
  second-some val none n d h k = (numbers.mul_double val (numbers.of_uint16 1), refl)
  second-some val (some second) n d h k =
      let (x, e) = double-some second.pixels d (omega (arith, h, k)) in
      (numbers.mul_double val x, ap (λ o. o >>= λ p. some (numbers.mul_double val p)) e)

  -- The pixel k of `q` is what the code makes of that of `p`.
  record CombinedBy (p q : Pixels numbers.Double) (val : numbers.Double)
      (second : Option (Image numbers.Double Coords)) (op : CombineOp) (k : ℕ) : Type 0 where
    pub op1 : numbers.Double
    pub op2 : numbers.Double
    pub first : double_at numbers coords_empty is_zero p k ≡ some op1
    pub other : second_operand numbers coords_empty is_zero val second k ≡ some op2
    pub result : element q k ≡ some (stored p (combine_op numbers coords_empty is_zero op op1 op2))

  combine_loop-CombinedBy :
      (left d : ℕ) (p : Pixels numbers.Double) (val : numbers.Double)
      (second : Option (Image numbers.Double Coords)) (op : CombineOp)
      → d + left ≤ count p
      → HasPixels second (d + left)
      → (q : Pixels numbers.Double) × (combine_loop numbers coords_empty is_zero left d p val second
            op
          ≡ some q)
        × ((k : ℕ) → (k < d) ⊎ (d + left ≤ k) → element q k ≡ element p k)
        × ((k : ℕ) → d ≤ k → k < d + left → CombinedBy p q val second op k)
  unfolding combine_loop
  combine_loop-CombinedBy zero d p val second op h1 h2 =
      (p, refl, (λ k h. refl), λ k h l. absurd (omega (arith, h, l)))
  combine_loop-CombinedBy (suc left) d p val second op h1 h2 =
      let (x, e) = double-some p d (omega arith) in
      let (y, f) = second-some val second (d + suc left) d h2 (omega arith) in
      let p' = store p d (combine_op numbers coords_empty is_zero op x y) in
      let (q, run, outside, inside) =
        combine_loop-CombinedBy left (d + 1) p' val second op
          (omega (arith, store-count p d (combine_op numbers coords_empty is_zero op x y)))
          (subst (HasPixels second) (omega arith) h2) in
      (
        q,
        ground (arith, e, f, run),
        (λ k h.
            outside k (elim h [ inl l ↦ inl (omega (arith, l)) | inr l ↦ inr (omega (arith, l)) ])
            ∙ store-other p d k (combine_op numbers coords_empty is_zero op x y)
                (elim h [ inl l ↦ ground (arith, l) | inr l ↦ ground (arith, l) ])),
        λ k h l. elim (Bool-cases (d == k)) [
          | inl g ↦ subst (CombinedBy p q val second op) (ground (arith, g)) (record {
            op1 = x;
            op2 = y;
            first = e;
            other = f;
            result =
                outside d (inl (omega arith))
                ∙ store-same p d (combine_op numbers coords_empty is_zero op x y) (omega arith);
          })
          | inr g ↦
              let there = inside k (ground (arith, g, h)) (omega (arith, l)) in
              record {
                op1 = there.op1;
                op2 = there.op2;
                first =
                    sym (double_other p d k (combine_op numbers coords_empty is_zero op x y) g)
                    ∙ there.first;
                other = there.other;
                result =
                    there.result
                    ∙ ap some (
                        store-stored p d (combine_op numbers coords_empty is_zero op x y)
                          (combine_op numbers coords_empty is_zero op there.op1 there.op2));
              }
        ],
      )

  -- what each operation makes of two doubles
  abbrev pub OutcomeOf : CombineOp → numbers.Double → numbers.Double → numbers.Double → Type 0
  OutcomeOf image_op_add op1 op2 value = value ≡ numbers.add_double op1 op2
  OutcomeOf image_op_sub op1 op2 value = value ≡ numbers.sub_double op1 op2
  OutcomeOf image_op_mul op1 op2 value = value ≡ numbers.mul_double op1 op2
  OutcomeOf image_op_div op1 op2 value =
      (is_zero op2 ≡ true → value ≡ numbers.zero_double)
      × (is_zero op2 ≡ false → value ≡ numbers.div_double op1 op2)

  -- The second operand: the value, times the pixel of the second image if there is one.
  abbrev pub OperandOf :
      numbers.Double → Option (Image numbers.Double Coords) → ℕ → numbers.Double → Type 0
  OperandOf val none k op2 = op2 ≡ numbers.mul_double val (numbers.of_uint16 1)
  OperandOf val (some second) k op2 =
      (y : numbers.Double) × (double_at numbers coords_empty is_zero second.pixels k ≡ some y)
      × (op2 ≡ numbers.mul_double val y)

  -- How a double is stored: as it is, or held between 0 and 65535 and cut to 16 bits.
  abbrev pub StoredAs :
      Pixels numbers.Double → numbers.Double → Option (numbers.Double ⊎ ℕ) → Type 0
  StoredAs (double_data a) value o = o ≡ some (inl value)
  StoredAs (uint16_data a) value o =
      let top = numbers.of_uint16 65535 in
      (numbers.ltb_double value top ≡ false
        → numbers.ltb_double top numbers.zero_double ≡ false
        → o ≡ some (inr (numbers.to_uint16 top)))
      × (numbers.ltb_double value top ≡ true
          → numbers.ltb_double value numbers.zero_double ≡ true
          → o ≡ some (inr (numbers.to_uint16 numbers.zero_double)))
      × (numbers.ltb_double value top ≡ true
          → numbers.ltb_double value numbers.zero_double ≡ false
          → o ≡ some (inr (numbers.to_uint16 value)))

  -- The pixel k of `q` is what the operation makes of that of `p`.
  pub record Combined (p q : Pixels numbers.Double) (val : numbers.Double)
      (second : Option (Image numbers.Double Coords)) (op : CombineOp) (k : ℕ) : Type 0 where
    pub op1 : numbers.Double
    pub op2 : numbers.Double
    pub value : numbers.Double
    pub first : double_at numbers coords_empty is_zero p k ≡ some op1
    pub other : OperandOf val second k op2
    pub outcome : OutcomeOf op op1 op2 value
    pub kept : StoredAs p value (element q k)

  combine_op-OutcomeOf :
      (op : CombineOp) (op1 op2 : numbers.Double)
      → OutcomeOf op op1 op2 (combine_op numbers coords_empty is_zero op op1 op2)
  unfolding combine_op
  combine_op-OutcomeOf image_op_add op1 op2 = refl
  combine_op-OutcomeOf image_op_sub op1 op2 = refl
  combine_op-OutcomeOf image_op_mul op1 op2 = refl
  combine_op-OutcomeOf image_op_div op1 op2 = ((λ h. rw h refl), λ h. rw h refl)

  stored-StoredAs :
      (p : Pixels numbers.Double) (value : numbers.Double) (o : Option (numbers.Double ⊎ ℕ))
      → o ≡ some (stored p value)
      → StoredAs p value o
  unfolding clamped
  stored-StoredAs (double_data a) value o e = e
  stored-StoredAs (uint16_data a) value o e =
      let top = numbers.of_uint16 65535 in
      let held = clamped numbers coords_empty is_zero value in
      let to : (n : ℕ) → held ≡ n → o ≡ some (inr n) = λ n h. e ∙ ap (λ m. some (inr m)) h in
      (
        (λ h k. to (numbers.to_uint16 top) (ground (arith, h, k))),
        (λ h k. to (numbers.to_uint16 numbers.zero_double) (ground (arith, h, k))),
        λ h k. to (numbers.to_uint16 value) (ground (arith, h, k)),
      )

  second-OperandOf :
      (val : numbers.Double) (second : Option (Image numbers.Double Coords)) (k : ℕ)
      (op2 : numbers.Double)
      → second_operand numbers coords_empty is_zero val second k ≡ some op2
      → OperandOf val second k op2
  unfolding second_operand
  second-OperandOf val none k op2 e = ground (arith, e)
  second-OperandOf val (some second) k op2 e =
      elim (Option-cases (double_at numbers coords_empty is_zero second.pixels k)) [
        | inl d ↦ absurd (ground (arith, d, e))
        | inr (y, d) ↦ (y, d, ground (arith, d, e))
      ]

  CombinedBy-Combined :
      (p q : Pixels numbers.Double) (val : numbers.Double)
      (second : Option (Image numbers.Double Coords)) (op : CombineOp) (k : ℕ)
      → CombinedBy p q val second op k
      → Combined p q val second op k
  CombinedBy-Combined p q val second op k c = record {
    op1 = c.op1;
    op2 = c.op2;
    value = combine_op numbers coords_empty is_zero op c.op1 c.op2;
    first = c.first;
    other = second-OperandOf val second k c.op2 c.other;
    outcome = combine_op-OutcomeOf op c.op1 c.op2;
    kept =
        stored-StoredAs p (combine_op numbers coords_empty is_zero op c.op1 c.op2) (element q k)
          c.result;
  }

  -- Images of the same size, with an array of that size each, are combined without a read or a write
  -- past an array: each pixel is the sum, the difference, the product or the quotient of that pixel
  -- and of the value times that of the second image, with 0 for a quotient by 0, held between 0 and
  -- 65535 in an image of 16 bits, and the rest of the image stays as it is.
  pub image_combine-Combined :
      (image : Image numbers.Double Coords) (val : numbers.Double)
      (second : Option (Image numbers.Double Coords)) (op : CombineOp)
      → same_sizes numbers coords_empty is_zero image second ≡ true
      → pixel_count image.width image.height ≤ count image.pixels
      → HasPixels second (pixel_count image.width image.height)
      → (q : Pixels numbers.Double) × (image_combine numbers coords_empty is_zero image val second
            op
          ≡ some (record image { pixels = q }))
        × ((k : ℕ)
            → pixel_count image.width image.height ≤ k
            → element q k ≡ element image.pixels k)
        × ((k : ℕ)
            → k < pixel_count image.width image.height
            → Combined image.pixels q val second op k)
  unfolding image_combine
  image_combine-Combined image val second op same h1 h2 =
      let n = pixel_count image.width image.height in
      let whole : n ≡ 0 + n = omega arith in
      let (q, run, outside, inside) =
        combine_loop-CombinedBy n 0 image.pixels val second op (omega (arith, h1))
          (subst (HasPixels second) whole h2) in
      (
        q,
        ground (arith, same, run),
        (λ k h. outside k (inr (omega (arith, h)))),
        λ k h.
            CombinedBy-Combined image.pixels q val second op k
              (inside k (omega arith) (omega (arith, h))),
      )
