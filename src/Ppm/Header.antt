-- ===== src/Ppm/Header.antt =====
-- The header of core_sim/src/ppm.rs is read back from the bytes that were put out.
use cpuex2022_7_simulator.Common.{
  ℕ, ◌≡◌, ◌<◌, ◌^◌, refl, ap, ◌∙◌, append_nil, append_cons, List, [], ◌∷◌, ◌++◌, some, Outcome,
  done, ◌>>◌, pure, Exec,
}
use cpuex2022_7_simulator.Ppm.{
  ◌>>=◌, PpmDataV6, PpmHeaderInfo, HeaderScanner, new, outb, number_space, parse_ppmv6_header,
  verify_header,
}

-- ' '
abbrev pub space : ℕ
space = 0x20

-- What nom documents, of the space after a tag or a number and of the decimal text of a `u32`.
pub record IsHeaderScanner (scan : HeaderScanner) (decimal : ℕ → List ℕ) : Type 0 where
  pub tag_taken : (rest : List ℕ) → scan.tag_p6 (0x50 ∷ 0x36 ∷ rest) ≡ some rest
  pub number_taken :
      (n : ℕ) (rest : List ℕ)
      → n < 2 ^ 32
      → scan.number (decimal n ++ (space ∷ rest)) ≡ some (space ∷ rest, n)
  pub space_taken :
      (n : ℕ) (rest : List ℕ)
      → scan.multispace1 (space ∷ (decimal n ++ rest)) ≡ some (decimal n ++ rest)
  pub spaces_taken :
      (rest : List ℕ) → (left : List ℕ) × (scan.multispace1 (space ∷ rest) ≡ some left)

abbrev pub outb_all : {E : Type 0} → List ℕ → Exec PpmDataV6 E (Unit {0})
outb_all [] = pure tt
outb_all (c ∷ cs) = outb c >> outb_all cs

outb_all-inner :
    {E : Type 0} (cs : List ℕ) (d : PpmDataV6)
    → ◌≡◌ {A = Outcome PpmDataV6 E (Unit {0})}
        (outb_all cs d)
        (done tt (record { inner = d.inner ++ cs }))
unfolding outb
outb_all-inner [] d = rw (append_nil d.inner) refl
outb_all-inner {E} (c ∷ cs) d =
    outb_all-inner cs (record { inner = d.inner ++ (c ∷ []) })
    ∙ ap (λ (xs : List ℕ). done tt (record { inner = xs })) (append_cons d.inner c cs)

-- "P6", and the three numbers, with a space behind each
abbrev pub header : (ℕ → List ℕ) → PpmHeaderInfo → List ℕ → List ℕ
header decimal info pixels =
    0x50
    ∷ 0x36
    ∷ space
    ∷ (decimal info.width
        ++ (space ∷ (decimal info.height ++ (space ∷ (decimal info.color ++ (space ∷ pixels))))))

pub record FitsU32 (info : PpmHeaderInfo) : Type 0 where
  pub width_lt : info.width < 2 ^ 32
  pub height_lt : info.height < 2 ^ 32
  pub color_lt : info.color < 2 ^ 32

module _ (scan : HeaderScanner) (decimal : ℕ → List ℕ) (docs : IsHeaderScanner scan decimal) where
  number_space-decimal :
      (n k : ℕ) (rest : List ℕ)
      → n < 2 ^ 32
      → number_space scan (decimal n ++ (space ∷ (decimal k ++ rest))) ≡ some (decimal k ++ rest, n)
  unfolding number_space
  number_space-decimal n k rest l =
      rw (number_space, docs.number_taken n (decimal k ++ rest) l, docs.space_taken k rest) refl

  header_read :
      (info : PpmHeaderInfo) (pixels : List ℕ)
      → FitsU32 info
      → (left : List ℕ) × (parse_ppmv6_header scan (header decimal info pixels) ≡ some (left, info))
  unfolding parse_ppmv6_header
  header_read info pixels fits =
      let (left, e) = docs.spaces_taken pixels in
      (
        left,
        rw
            (
              parse_ppmv6_header,
              ◌>>=◌,
              docs.tag_taken _,
              docs.space_taken info.width _,
              number_space-decimal info.width info.height _ fits.width_lt,
              number_space-decimal info.height info.color _ fits.height_lt,
              number_space,
              docs.number_taken info.color pixels fits.color_lt,
              e,
            )
            refl,
      )

  header_verified :
      (info : PpmHeaderInfo) (pixels : List ℕ)
      → FitsU32 info
      → verify_header scan (record { inner = header decimal info pixels }) ≡ some info
  unfolding verify_header
  header_verified info pixels fits =
      let (left, e) = header_read info pixels fits in rw (verify_header, e) refl

  -- A program that has put out a header and then whatever bytes leaves an image whose header is
  -- verified as what it was, if the numbers are of 32 bits. The parsers do what nom documents.
  pub verify_header-outb_all :
      {E : Type 0} (info : PpmHeaderInfo) (pixels : List ℕ)
      → FitsU32 info
      → (d : PpmDataV6) × (◌≡◌ {A = Outcome PpmDataV6 E (Unit {0})}
          (outb_all (header decimal info pixels) new)
          (done tt d))
        × (verify_header scan d ≡ some info)
  verify_header-outb_all info pixels fits = (
    record { inner = header decimal info pixels },
    outb_all-inner _ new,
    header_verified info pixels fits,
  )
