-- ===== src/Tests/Objects.antt =====
-- A codec for object records, in place of encoding/json: every field in order.
use opens.Prelude.{ℕ, refl, ℤ, Bool, Option, List, Bytes, Map}
use opens.Iam.Types.{Acl}
use opens.Meta.Types.{Time, Tag, Part, Checksum, Sse, Retention, Object}
use opens.Meta.Store.{Codec}
use opens.Tests.Wire.{
  Wire, nat_wire, int_wire, bool_wire, text_wire, option_wire, list_wire, pair_wire, map_wire,
  codec_of,
}
use opens.Tests.Records.{acl_wire, tag_wire, part_wire, checksum_wire, sse_wire, retention_wire}

object_of :
    (Bytes
      × (Bytes
          × (Bytes
              × (ℕ
                  × (Bool
                      × (ℤ
                          × (Bytes
                              × (Time
                                  × (Bytes
                                      × (Bytes
                                          × (Bytes
                                              × (Bytes
                                                  × (Bytes
                                                      × (Bytes
                                                          × (Bytes
                                                            × (Bytes
                                                            × (Bytes
                                                            × ((Map Bytes)
                                                            × ((List Tag)
                                                            × (Bytes
                                                            × ((Option Acl)
                                                            × ((List Part)
                                                            × ((Option Checksum)
                                                            × ((Option Sse)
                                                            × ((Option Retention)
                                                            × (Bool
                                                            × (Option
                                                            Time)))))))))))))))))))))))))))
    → Object
object_of
      (
        x0,
        (
          x1,
          (
            x2,
            (
              x3,
              (
                x4,
                (
                  x5,
                  (
                    x6,
                    (
                      x7,
                      (
                        x8,
                        (
                          x9,
                          (
                            x10,
                            (
                              x11,
                              (
                                x12,
                                (
                                  x13,
                                  (
                                    x14,
                                    (
                                      x15,
                                      (
                                        x16,
                                        (
                                          x17,
                                          (
                                            x18,
                                            (x19, (x20, (x21, (x22, (x23, (x24, (x25, x26))))))),
                                          ),
                                        ),
                                      ),
                                    ),
                                  ),
                                ),
                              ),
                            ),
                          ),
                        ),
                      ),
                    ),
                  ),
                ),
              ),
            ),
          ),
        ),
      ) =
    record {
      bucket = x0;
      key = x1;
      version_id = x2;
      seq = x3;
      delete_marker = x4;
      size = x5;
      etag = x6;
      mod_time = x7;
      owner = x8;
      owner_display = x9;
      content_type = x10;
      content_encoding = x11;
      content_disposition = x12;
      content_language = x13;
      cache_control = x14;
      expires = x15;
      website_redirect = x16;
      user_meta = x17;
      tags = x18;
      storage_class = x19;
      acl = x20;
      parts = x21;
      checksum = x22;
      sse = x23;
      retention = x24;
      legal_hold = x25;
      restore_expiry = x26;
    }

object_wire : Wire Object
unfolding object_of
object_wire =
    map_wire object_of
      (λ r. (
        r.bucket,
        (
          r.key,
          (
            r.version_id,
            (
              r.seq,
              (
                r.delete_marker,
                (
                  r.size,
                  (
                    r.etag,
                    (
                      r.mod_time,
                      (
                        r.owner,
                        (
                          r.owner_display,
                          (
                            r.content_type,
                            (
                              r.content_encoding,
                              (
                                r.content_disposition,
                                (
                                  r.content_language,
                                  (
                                    r.cache_control,
                                    (
                                      r.expires,
                                      (
                                        r.website_redirect,
                                        (
                                          r.user_meta,
                                          (
                                            r.tags,
                                            (
                                              r.storage_class,
                                              (
                                                r.acl,
                                                (
                                                  r.parts,
                                                  (
                                                    r.checksum,
                                                    (
                                                      r.sse,
                                                      (
                                                        r.retention,
                                                        (r.legal_hold, r.restore_expiry),
                                                      ),
                                                    ),
                                                  ),
                                                ),
                                              ),
                                            ),
                                          ),
                                        ),
                                      ),
                                    ),
                                  ),
                                ),
                              ),
                            ),
                          ),
                        ),
                      ),
                    ),
                  ),
                ),
              ),
            ),
          ),
        ),
      ))
      (λ r. refl)
      (pair_wire text_wire (
        pair_wire text_wire (
          pair_wire text_wire (
            pair_wire nat_wire (
              pair_wire bool_wire (
                pair_wire int_wire (
                  pair_wire text_wire (
                    pair_wire nat_wire (
                      pair_wire text_wire (
                        pair_wire text_wire (
                          pair_wire text_wire (
                            pair_wire text_wire (
                              pair_wire text_wire (
                                pair_wire text_wire (
                                  pair_wire text_wire (
                                    pair_wire text_wire (
                                      pair_wire text_wire (
                                        pair_wire (list_wire (pair_wire text_wire text_wire)) (
                                          pair_wire (list_wire tag_wire) (
                                            pair_wire text_wire (
                                              pair_wire (option_wire acl_wire) (
                                                pair_wire (list_wire part_wire) (
                                                  pair_wire (option_wire checksum_wire) (
                                                    pair_wire (option_wire sse_wire) (
                                                      pair_wire (option_wire retention_wire) (
                                                        pair_wire bool_wire (
                                                          option_wire
                                                            nat_wire)))))))))))))))))))))))))))

pub objects : Codec Object
objects = codec_of object_wire
