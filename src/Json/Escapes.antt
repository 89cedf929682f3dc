-- ===== src/Json/Escapes.antt =====
-- src/json_write.c, `append_escaped_string`: its escapes are those of the grammar.
use oi_c.Prelude.{
  ℕ, zero, suc, ◌/◌, ◌%◌, ◌<◌, ◌≡◌, inl, inr, refl, ap, ◌∷◌, ◌++◌, Bytes, ltb, ◌==◌, Bool-cases,
  arith,
}
use oi_c.Json.Walk.{letters, letter_of, hex, escape, escaped_all}
use oi_c.Json.Writer.{escaped, hex_char}

hex-hex_char : (d : ℕ) → d < 16 → hex d ≡ hex_char d
unfolding hex
hex-hex_char zero h = refl
hex-hex_char (suc zero) h = refl
hex-hex_char (suc (suc zero)) h = refl
hex-hex_char (suc (suc (suc zero))) h = refl
hex-hex_char (suc (suc (suc (suc zero)))) h = refl
hex-hex_char (suc (suc (suc (suc (suc zero))))) h = refl
hex-hex_char (suc (suc (suc (suc (suc (suc zero)))))) h = refl
hex-hex_char (suc (suc (suc (suc (suc (suc (suc zero))))))) h = refl
hex-hex_char (suc (suc (suc (suc (suc (suc (suc (suc zero)))))))) h = refl
hex-hex_char (suc (suc (suc (suc (suc (suc (suc (suc (suc zero))))))))) h = refl
hex-hex_char (suc (suc (suc (suc (suc (suc (suc (suc (suc (suc zero)))))))))) h = refl
hex-hex_char (suc (suc (suc (suc (suc (suc (suc (suc (suc (suc (suc zero))))))))))) h = refl
hex-hex_char (suc (suc (suc (suc (suc (suc (suc (suc (suc (suc (suc (suc zero)))))))))))) h = refl
hex-hex_char (suc (suc (suc (suc (suc (suc (suc (suc (suc (suc (suc (suc (suc zero))))))))))))) h =
    refl
hex-hex_char
      (suc (suc (suc (suc (suc (suc (suc (suc (suc (suc (suc (suc (suc (suc zero)))))))))))))) h =
    refl
hex-hex_char
      (suc (suc (suc (suc (suc (suc (suc (suc (suc (suc (suc (suc (suc (suc (suc zero)))))))))))))))
      h =
    refl
hex-hex_char
      (suc
        (suc (suc (suc (suc (suc (suc (suc (suc (suc (suc (suc (suc (suc (suc (suc d))))))))))))))))
      h =
    absurd (omega arith)

escape-escaped : (c : ℕ) → escape c ≡ escaped c
unfolding escape escaped letter_of letters
escape-escaped c = elim (Bool-cases (c == 34)) [
  | inl e ↦ simp e refl
  | inr e34 ↦ elim (Bool-cases (c == 92)) [
    | inl e ↦ simp (e34, e) refl
    | inr e92 ↦ elim (Bool-cases (c == 8)) [
      | inl e ↦ simp (e34, e92, e) refl
      | inr e8 ↦ elim (Bool-cases (c == 12)) [
        | inl e ↦ simp (e34, e92, e8, e) refl
        | inr e12 ↦ elim (Bool-cases (c == 10)) [
          | inl e ↦ simp (e34, e92, e8, e12, e) refl
          | inr e10 ↦ elim (Bool-cases (c == 13)) [
            | inl e ↦ simp (e34, e92, e8, e12, e10, e) refl
            | inr e13 ↦ elim (Bool-cases (c == 9)) [
              | inl e ↦ simp (e34, e92, e8, e12, e10, e13, e) refl
              | inr e9 ↦ elim (Bool-cases (ltb c 32)) [
                | inl e ↦
                    let a : hex (c / 16) ≡ hex_char (c / 16) =
                      hex-hex_char (c / 16) (ground arith) in
                    let b : hex (c % 16) ≡ hex_char (c % 16) =
                      hex-hex_char (c % 16) (omega arith) in
                    simp (e34, e92, e8, e12, e10, e13, e9, e, a, b) refl
                | inr e ↦ simp (e34, e92, e8, e12, e10, e13, e9, e) refl
              ]
            ]
          ]
        ]
      ]
    ]
  ]
]

pub escaped_all-cons : (c : ℕ) (cs : Bytes) → escaped_all (c ∷ cs) ≡ escaped c ++ escaped_all cs
unfolding escaped_all
escaped_all-cons c cs = ap (λ x. x ++ escaped_all cs) (escape-escaped c)
