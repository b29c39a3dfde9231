-- ===== src/Image.antt =====
-- hsa-rt/src/ext/image: images of the HSA image extension. `Geometry` has the shapes and the regions
-- within them, `Format` the channel orders, `Descriptor` what the HSA library is told of an image,
-- `Copies` the checks before data is copied in or out; the laws are in `Roundtrip` and `Sizes`.
pub mod Geometry
pub mod Format
pub mod Descriptor
pub mod Copies
pub mod Roundtrip
pub mod Sizes
mod Tests
