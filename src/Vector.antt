-- ===== src/Vector.antt =====
-- `struct Vec3` of src/Game/GameCommand.h.
use cpp_mmo.Base.{if◌then◌else◌}
use cpp_mmo.Float.{FloatOps}

pub record Vec3 (F : Type 0) : Type 0 where
  pub x : F
  pub y : F
  pub z : F

module _ {F : Type 0} ⦃fl : FloatOps F⦄ where
  -- `Vec3()`
  unfoldable pub origin : Vec3 F
  origin = record { x = fl.of_nat 0; y = fl.of_nat 0; z = fl.of_nat 0 }

  unfoldable pub add : Vec3 F → Vec3 F → Vec3 F
  add a b = record { x = fl.add a.x b.x; y = fl.add a.y b.y; z = fl.add a.z b.z }

  unfoldable pub sub : Vec3 F → Vec3 F → Vec3 F
  sub a b = record { x = fl.sub a.x b.x; y = fl.sub a.y b.y; z = fl.sub a.z b.z }

  unfoldable pub scale : Vec3 F → F → Vec3 F
  scale a s = record { x = fl.mul a.x s; y = fl.mul a.y s; z = fl.mul a.z s }

  -- `std::sqrt(x * x + y * y + z * z)`
  unfoldable vector_length : Vec3 F → F
  vector_length a = fl.sqrt (fl.add (fl.add (fl.mul a.x a.x) (fl.mul a.y a.y)) (fl.mul a.z a.z))

  unfoldable pub normalized : Vec3 F → Vec3 F
  unfolding vector_length origin
  normalized a =
      let len = vector_length a in
      if fl.lt (fl.of_nat 0) len
      then record { x = fl.div a.x len; y = fl.div a.y len; z = fl.div a.z len }
      else origin
