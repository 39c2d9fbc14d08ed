-- ===== src/Operators/Vectors.antt =====
-- Operators on structs. The arithmetic of `f32` belongs to the language, so the vectors of 301, 302
-- and 303 are modelled over any such arithmetic.
use sa_plugin_sla.Prelude.{if◌then◌else◌, ℤ, pos, eqb_ℤ, Bool, not, ◌&&◌, [], ◌∷◌}
use sa_plugin_sla.Rust.{
  Outcome, done, ◌>>=◌, ◌>>◌, assert, lit, int, flag, Line, Exit, print, int_line, add_i32,
}

-- The operations of `f32` that the programs use.
pub record Float : Type 1 where
  pub F : Type 0
  pub literal : ℤ → F
  pub plus : F → F → F
  pub negate : F → F
  pub times : F → F → F
  pub equal : F → F → Bool

module _ (f32 : Float) where
  -- 301_operator_overload_add, 302_operator_overload_neg and 303_operator_overload_scalar_mul
  pub record Vec3 : Type 0 where
    pub x : f32.F
    pub y : f32.F
    pub z : f32.F

  unfoldable pub add_vec3 : Vec3 → Vec3 → Vec3
  add_vec3 a b = record { x = f32.plus a.x b.x; y = f32.plus a.y b.y; z = f32.plus a.z b.z }

  unfoldable pub neg_vec3 : Vec3 → Vec3
  neg_vec3 a = record { x = f32.negate a.x; y = f32.negate a.y; z = f32.negate a.z }

  unfoldable pub mul_vec3 : Vec3 → f32.F → Vec3
  mul_vec3 a s = record { x = f32.times a.x s; y = f32.times a.y s; z = f32.times a.z s }

  abbrev pub vec3 : ℤ → ℤ → ℤ → Vec3
  vec3 x y z = record { x = f32.literal x; y = f32.literal y; z = f32.literal z }

  -- The assertion at the end of the three programs: every component has its expected value.
  unfoldable pub assert_vec3 : Vec3 → Vec3 → Outcome (Unit {0})
  assert_vec3 c e = assert (f32.equal c.x e.x && f32.equal c.y e.y && f32.equal c.z e.z)

  unfoldable pub add_vec3_checked : Outcome (Unit {0})
  unfolding add_vec3 assert_vec3
  add_vec3_checked =
      assert_vec3 (add_vec3 (vec3 (pos 1) (pos 2) (pos 3)) (vec3 (pos 4) (pos 5) (pos 6)))
        (vec3 (pos 5) (pos 7) (pos 9))

  unfoldable pub neg_vec3_checked : Outcome (Unit {0})
  unfolding neg_vec3 assert_vec3
  neg_vec3_checked =
      assert_vec3
        (neg_vec3 (record {
          x = f32.literal (pos 1);
          y = f32.negate (f32.literal (pos 2));
          z = f32.literal (pos 3);
        }))
        (record {
          x = f32.negate (f32.literal (pos 1));
          y = f32.literal (pos 2);
          z = f32.negate (f32.literal (pos 3));
        })

  unfoldable pub mul_vec3_checked : Outcome (Unit {0})
  unfolding mul_vec3 assert_vec3
  mul_vec3_checked =
      assert_vec3 (mul_vec3 (vec3 (pos 1) (pos 2) (pos 3)) (f32.literal (pos 4)))
        (vec3 (pos 4) (pos 8) (pos 12))

-- 304_operator_overload_eq
pub record Point : Type 0 where
  pub x : ℤ
  pub y : ℤ

unfoldable pub eq : Point → Point → Bool
eq a b = eqb_ℤ a.x b.x && eqb_ℤ a.y b.y

unfoldable pub overload_eq_main : Exit
unfolding eq
overload_eq_main =
    let a : Point = record { x = pos 10; y = pos 20 } in
    let b : Point = record { x = pos 10; y = pos 20 } in
    let c : Point = record { x = pos 99; y = pos 0 } in
    print (λ u. lit "a == b: " ∷ flag (eq a b) ∷ lit ", a != c: " ∷ flag (not (eq a c)) ∷ [])
      (assert (eq a b) >> assert (not (eq a c)))

-- 312_operator_overload_block: `main` returns a number.
pub record Vec2 : Type 0 where
  pub x : ℤ
  pub y : ℤ

unfoldable pub add_vec2 : Vec2 → Vec2 → Outcome Vec2
add_vec2 a b = do x ← add_i32 a.x b.x; y ← add_i32 a.y b.y; done (record { x = x; y = y })

unfoldable pub overload_block_result : Vec2 → ℤ
overload_block_result c =
    if not (eqb_ℤ c.x (pos 5)) then pos 0 else if not (eqb_ℤ c.y (pos 9)) then pos 0 else pos 59

unfoldable pub overload_block_main : Outcome (Line × ℤ)
unfolding add_vec2 overload_block_result
overload_block_main = do
  c ← add_vec2 (record { x = pos 4; y = pos 6 }) (record { x = pos 1; y = pos 3 })
  done (lit "(" ∷ int c.x ∷ lit ", " ∷ int c.y ∷ lit ")" ∷ [], overload_block_result c)

-- 313_type_alias_flattening
pub record Transform : Type 0 where
  pub x : ℤ
  pub y : ℤ

pub record Velocity : Type 0 where
  pub vx : ℤ
  pub vy : ℤ

pub record BulletData : Type 0 where
  pub x : ℤ
  pub y : ℤ
  pub vx : ℤ
  pub vy : ℤ
  pub damage : ℤ

unfoldable pub bullet_of : Transform → Velocity → ℤ → BulletData
bullet_of t v damage = record { x = t.x; y = t.y; vx = v.vx; vy = v.vy; damage = damage }

unfoldable pub bullet_total : BulletData → Outcome ℤ
bullet_total bullet = do
  a ← add_i32 bullet.x bullet.y
  b ← add_i32 a bullet.vx
  c ← add_i32 b bullet.vy
  add_i32 c bullet.damage

unfoldable pub spawn_bullet : Outcome ℤ
unfolding bullet_of bullet_total
spawn_bullet =
    bullet_total
      (bullet_of (record { x = pos 10; y = pos 20 }) (record { vx = pos 30; vy = pos 40 }) (pos 50))

unfoldable pub alias_flattening_main : Exit
unfolding spawn_bullet
alias_flattening_main = print int_line spawn_bullet
