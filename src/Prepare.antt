-- ===== src/Prepare.antt =====
-- src/prepare.c: what a new thread gets of the functions, classes, constants, settings and included
-- files of the thread that created it, and how classes are copied later on. Attributes, and the table
-- from the values of a backed enumeration to its cases, are left out.
pub mod Traits
pub mod Classes
pub mod Methods
pub mod Entry
pub mod Properties
pub mod Statics
pub mod Late
pub mod Create
pub mod Stock
pub mod Frame
pub mod Slots
pub mod Calls
pub mod Bindings
pub mod Entries
pub mod Missing
pub mod Ends
pub mod Ini
pub mod Startup
pub mod Inherit
pub mod Tests
