-- ===== src/Artifacts.antt =====
-- browser_artifacts.py: the validation and the redaction of a page fragment, and the files that a
-- failure leaves. `html.parser` is a parameter: a fragment is the list of the handler calls that it
-- makes. A text is the list of its code points.
pub mod Words
pub mod Validator
pub mod Sanitizer
pub mod Writer
pub mod Directory
pub mod Erasure
pub mod Grammar
pub mod Shape
pub mod Composition
pub mod Inside
pub mod Within
pub mod Parts
pub mod Printed
pub mod Table
pub mod SelfClosing
mod Tests
