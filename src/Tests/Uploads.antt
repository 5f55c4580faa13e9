-- ===== src/Tests/Uploads.antt =====
-- A codec for upload records, in place of encoding/json: every field in order.
use opens.Prelude.{refl, Bool, Option, List, Bytes, Map}
use opens.Iam.Types.{Acl}
use opens.Meta.Types.{Time, Tag, Sse, Retention, Upload}
use opens.Meta.Store.{Codec}
use opens.Tests.Wire.{
  Wire, nat_wire, bool_wire, text_wire, option_wire, list_wire, pair_wire, map_wire, codec_of,
}
use opens.Tests.Records.{acl_wire, tag_wire, sse_wire, retention_wire}

upload_of :
    (Bytes
      × (Bytes
          × (Bytes
              × (Time
                  × (Bytes
                      × (Bytes
                          × (Bytes
                              × (Bytes
                                  × (Bytes
                                      × (Bytes
                                          × (Bytes
                                              × (Bytes
                                                  × (Bytes
                                                      × ((Map Bytes)
                                                          × ((List Tag)
                                                            × (Bytes
                                                            × ((Option Acl)
                                                            × ((Option Sse)
                                                            × (Bytes
                                                            × (Bytes
                                                            × ((Option Retention)
                                                            × Bool)))))))))))))))))))))
    → Upload
upload_of
      (
        x0,
        (
          x1,
          (
            x2,
            (
              x3,
              (
                x4,
                (
                  x5,
                  (
                    x6,
                    (
                      x7,
                      (
                        x8,
                        (
                          x9,
                          (
                            x10,
                            (
                              x11,
                              (x12, (x13, (x14, (x15, (x16, (x17, (x18, (x19, (x20, x21))))))))),
                            ),
                          ),
                        ),
                      ),
                    ),
                  ),
                ),
              ),
            ),
          ),
        ),
      ) =
    record {
      bucket = x0;
      key = x1;
      upload_id = x2;
      initiated = x3;
      owner = x4;
      owner_display = x5;
      content_type = x6;
      content_encoding = x7;
      content_disposition = x8;
      content_language = x9;
      cache_control = x10;
      expires = x11;
      website_redirect = x12;
      user_meta = x13;
      tags = x14;
      storage_class = x15;
      acl = x16;
      sse = x17;
      checksum_algorithm = x18;
      checksum_type = x19;
      retention = x20;
      legal_hold = x21;
    }

upload_wire : Wire Upload
unfolding upload_of
upload_wire =
    map_wire upload_of
      (λ r. (
        r.bucket,
        (
          r.key,
          (
            r.upload_id,
            (
              r.initiated,
              (
                r.owner,
                (
                  r.owner_display,
                  (
                    r.content_type,
                    (
                      r.content_encoding,
                      (
                        r.content_disposition,
                        (
                          r.content_language,
                          (
                            r.cache_control,
                            (
                              r.expires,
                              (
                                r.website_redirect,
                                (
                                  r.user_meta,
                                  (
                                    r.tags,
                                    (
                                      r.storage_class,
                                      (
                                        r.acl,
                                        (
                                          r.sse,
                                          (
                                            r.checksum_algorithm,
                                            (r.checksum_type, (r.retention, r.legal_hold)),
                                          ),
                                        ),
                                      ),
                                    ),
                                  ),
                                ),
                              ),
                            ),
                          ),
                        ),
                      ),
                    ),
                  ),
                ),
              ),
            ),
          ),
        ),
      ))
      (λ r. refl)
      (pair_wire text_wire (
        pair_wire text_wire (
          pair_wire text_wire (
            pair_wire nat_wire (
              pair_wire text_wire (
                pair_wire text_wire (
                  pair_wire text_wire (
                    pair_wire text_wire (
                      pair_wire text_wire (
                        pair_wire text_wire (
                          pair_wire text_wire (
                            pair_wire text_wire (
                              pair_wire text_wire (
                                pair_wire (list_wire (pair_wire text_wire text_wire)) (
                                  pair_wire (list_wire tag_wire) (
                                    pair_wire text_wire (
                                      pair_wire (option_wire acl_wire) (
                                        pair_wire (option_wire sse_wire) (
                                          pair_wire text_wire (
                                            pair_wire text_wire (
                                              pair_wire (option_wire retention_wire)
                                                bool_wire)))))))))))))))))))))

pub uploads : Codec Upload
uploads = codec_of upload_wire
