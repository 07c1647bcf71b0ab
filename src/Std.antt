-- ===== src/Std.antt =====
-- What the program uses of the standard library of C++: `std::map`, `std::vector`, the members of
-- `std::string`, and the conversions between `int` and `std::string`.
pub mod Dict
pub mod Vector
pub mod Number
pub mod Strings
