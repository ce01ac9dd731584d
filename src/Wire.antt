-- ===== src/Wire.antt =====
-- The data that the panel's API sends and receives (web/src/types/api.ts), a record to an
-- interface, an enumeration to a union of literals. A field with `?` is an `Option`; an interface
-- that extends another has it as its field `base`. Counts and byte sizes are natural numbers,
-- coins are integers, and fractional percentages are of a type that is a parameter.
pub mod Account
pub mod Nodes
pub mod Servers
pub mod Economy
pub mod Modrinth
